-- ===== src/Fuse.antt =====
-- src/fuse.rs: the FUSE backend.
pub mod Attributes
pub mod Inodes
pub mod Session
pub mod Cursor
pub mod Files
pub mod Rename
pub mod Names
pub mod Directories
pub mod Lifecycle
pub mod Requests
pub mod Sound
pub mod Handles
