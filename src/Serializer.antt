-- ===== src/Serializer.antt =====
-- xelis_common/src/serializer: the reader and the writer of bytes, the trait, and its instances.
pub mod Bytes
pub mod Writer
pub mod Reader
pub mod Trait
pub mod Collections
