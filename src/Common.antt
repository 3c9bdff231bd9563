-- ===== src/Common.antt =====
-- The code that the kernel, the user programs and the image tools share, common/.
pub mod Func
pub mod Bitmap
pub mod Inode
