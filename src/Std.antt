-- ===== src/Std.antt =====
-- What the sources use of the C++ standard library's texts and numbers: `std::to_string`,
-- `std::stoi` and `snprintf("%02u")` in Number, the members of `std::string` in Text.
pub mod Number
pub mod Text
