-- ===== src/Mock.antt =====
-- assets/js/mock.js
pub mod Random
pub mod Format
pub mod Tags
pub mod Alarms
pub mod Simulator
pub mod Trend
pub mod Energy
pub mod Cameras
pub mod Plant
