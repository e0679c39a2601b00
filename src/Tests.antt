-- ===== src/Tests.antt =====
-- Concrete runs of the bridge against small providers.
mod Memory
mod Fuse
mod Streams
mod Lifecycle
mod Windows
mod Disk
mod Volume
mod Callbacks
mod Logs
mod Removals
mod Probe
mod Server
mod Held
mod Unmount
mod Mounting
