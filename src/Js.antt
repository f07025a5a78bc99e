-- ===== src/Js.antt =====
-- What the pages use of JavaScript's own library: strings and decimal numerals.
pub mod Strings
pub mod Decimal
