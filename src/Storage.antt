-- ===== src/Storage.antt =====
-- The storage layer of src/storage: the write-ahead log of the image and what is built on it.
pub mod Wal
pub mod Layout
pub mod Catalog
