-- ===== src/Infra.antt =====
-- The infrastructure of src/infra: checksums and the allocator of the shared image.
pub mod Bits
pub mod Crc32
pub mod Slab
pub mod BTree
