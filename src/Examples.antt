-- ===== src/Examples.antt =====
-- The theorems at concrete inputs.
pub mod Data
pub mod Codecs
pub mod Maps
pub mod Layouts
pub mod Files
pub mod Disks
pub mod Writers
pub mod Rewritings
pub mod Updates
pub mod Asyncs
