-- ===== src/Tags/Keys.antt =====
-- The key types of the two maps: `String` for tags, `MetaKey` for metadata.
pub mod Text
pub mod MetaKey
