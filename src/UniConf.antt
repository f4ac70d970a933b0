-- ===== src/UniConf.antt =====
-- uniconf/: the hierarchical configuration database, part by part.
pub mod Key
pub mod Slice
pub mod Gen
pub mod Tree
pub mod TempGen
