-- ===== src/Decode.antt =====
-- The incremental decoder of src/decode.
pub mod BitReader
pub mod Outcome
pub mod Parse
pub mod VarLenUint8
pub mod StreamHeader
pub mod MetaBlockHeader
pub mod Command
pub mod History
pub mod Distance
pub mod Context
pub mod PrefixCode
pub mod BlockPartition
pub mod BlockState
pub mod SimplePrefixCode
pub mod ComplexPrefixCode
pub mod PrefixCodeDecoder
pub mod ContextMap
pub mod TreeGroup
pub mod CompressedTrees
pub mod CompressedHeader
pub mod Dictionary
pub mod CompressedBlock
pub mod CompressedMetaBlock
pub mod Decoder
pub mod Core
pub mod Facade
