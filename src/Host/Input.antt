-- ===== src/Host/Input.antt =====
-- electron/services/input/: the adapters that turn events into commands of the platform, and
-- electron/services/RemoteInputService.ts, which calls them.
pub mod Adapter
pub mod LinuxKeymap
pub mod Linux
pub mod MacKeymap
pub mod Mac
pub mod Dispatch
pub mod Queue
pub mod Runner
