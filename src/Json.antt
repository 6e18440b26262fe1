-- ===== src/Json.antt =====
-- src/brutils/json_parser.cpp, src/brutils/json_generator.cpp and include/brutils/variant.h.
pub mod Floats
pub mod Variant
pub mod Access
pub mod Generator
pub mod Parser
pub mod RoundTrip
mod Tests
