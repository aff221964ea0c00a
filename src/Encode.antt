-- ===== src/Encode.antt =====
-- The encoder of src/encode.
pub mod BitWriter
pub mod PrefixCode
pub mod Framing
pub mod Command
pub mod Distance
pub mod Config
pub mod BlockSplit
