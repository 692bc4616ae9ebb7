-- ===== src/Json/RoundTrip.antt =====
-- Parsing the text of a value gives the value back.
pub mod Strings
pub mod Numbers
pub mod Steps
pub mod Whole
