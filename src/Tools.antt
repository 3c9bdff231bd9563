-- ===== src/Tools.antt =====
-- The tools that build a disk image, tools/.
pub mod Superblock
pub mod Image
pub mod Blocks
pub mod Fs
pub mod Tables
pub mod Open
pub mod Delete
pub mod Add
pub mod Create
pub mod Show
