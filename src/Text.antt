-- ===== src/Text.antt =====
-- Byte strings (`std::string`, `std::string_view`) and what the sources use of the C++ and C
-- libraries on them: comparison, `isspace`, `find`, `getline`, `to_string`, `sscanf`.
pub mod Raw
pub mod Trim
pub mod Split
pub mod Lines
pub mod Decimal
