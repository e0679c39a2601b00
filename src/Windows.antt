-- ===== src/Windows.antt =====
-- src/windows*.rs and src/mount_gate.rs: the WinFsp backend.
pub mod Attributes
pub mod Times
pub mod Drives
pub mod Gate
pub mod Handles
pub mod Status
pub mod Names
pub mod Info
pub mod Contexts
pub mod Opening
pub mod Data
pub mod Metadata
pub mod Namespace
pub mod Listing
pub mod Mount
pub mod Steady
pub mod Sends
pub mod Held
pub mod Volume
