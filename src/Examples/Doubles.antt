-- ===== src/Examples/Doubles.antt =====
-- Stand-ins for libraries: tokens, hashes and dates.
pub mod Tokens
pub mod Hashes
pub mod Dates
