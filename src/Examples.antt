-- ===== src/Examples.antt =====
-- Tests and concrete instances of the theorems, by the part of the program that they are about.
pub mod Wal
pub mod Write
pub mod Net
pub mod Sql
pub mod Slab
pub mod Server
pub mod BTree
pub mod Layout
pub mod Catalog
