-- ===== src/Json/RoundTrip.antt =====
-- What src/brutils/json_generator.cpp writes, src/brutils/json_parser.cpp reads back.
pub mod Scan
pub mod Keys
pub mod Text
pub mod Printable
pub mod Steps
pub mod Rounds
pub mod Values
pub mod Bounds
pub mod Whole
