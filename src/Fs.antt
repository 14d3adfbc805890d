-- ===== src/Fs.antt =====
-- The file system service, src/fs.
pub mod Pipe
pub mod Fcb
pub mod Taskctx
pub mod Cache
pub mod Vfs
