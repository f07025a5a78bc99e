-- ===== src/Examples.antt =====
-- Runs of the definitions at concrete inputs, and the theorems applied to such.
mod Json
mod Thousandths
mod Session
mod Random
mod Plant
mod Alarms
mod Engine
mod Screens
mod Gateway
mod Collector
mod Video
