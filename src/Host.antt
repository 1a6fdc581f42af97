-- ===== src/Host.antt =====
-- electron/: the services of the main process.
pub mod TokenService
pub mod Clipboard
pub mod Logger
pub mod Identity
pub mod Input
pub mod Ipc
mod Tests
