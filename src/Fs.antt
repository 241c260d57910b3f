-- ===== src/Fs.antt =====
-- kernel/fs: fs.c, the layer that all file systems share.
pub mod Paths
pub mod Types
pub mod Cache
pub mod Mount
pub mod Files
pub mod Startup
pub mod Lookup
pub mod Array
pub mod Table
pub mod Mounting
pub mod Removal
pub mod Unmounting
pub mod RoundTrip
pub mod Shutdown
pub mod Release
pub mod Fgfs
