-- ===== src/Types/Time.antt =====
-- The date and time types of types/time.rs.
pub mod Derive
pub mod Date
pub mod DateTime
