-- ===== src/Sdk.antt =====
-- The vendored filesystem SDK as the bridge sees it: its value types, and its two calls as
-- parameters.
mod Types
mod Interface
pub mod Paths
pub mod Listings
pub mod Handles
pub mod Scripted
pub use Types.*
pub use Interface.*
