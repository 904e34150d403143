-- ===== src/Types.antt =====
-- types.rs and its children: the types that the format defines.
pub mod Number
pub mod Limit
pub mod Utf8
pub mod Text
pub mod Block
pub mod Scalar
pub mod Time
pub mod Canonical
pub mod Optional
