-- ===== src/Time.antt =====
-- The time formats of the Hue API: src/TimePattern.cpp, one module for each of its classes.
pub mod Duration
pub mod Weekdays
pub mod Timestamp
pub mod Pattern
mod Examples
