-- ===== src/Codec.antt =====
-- What the decoder of src/decode reads from what the encoder of src/encode writes.
pub mod VarLen
pub mod Window
pub mod MetaBlock
pub mod Command
pub mod Distance
pub mod ContextMap
pub mod SimpleHeader
pub mod Reach
