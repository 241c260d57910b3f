-- ===== src/Fs/Fgfs.antt =====
-- kernel/fs/fgfs.c: the native file system. Its device input and output are not written yet in the
-- source, so a mount works on a superblock that it makes up.
pub mod Checksum
pub mod Detection
pub mod Collision
pub mod Types
pub mod Operations
pub mod Files
pub mod Seeking
pub mod Mounting
pub mod Format
