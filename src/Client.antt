-- ===== src/Client.antt =====
-- src/: the services, stores and hooks of the renderer.
pub mod Clipboard
pub mod Signaling
pub mod Store
pub mod RemoteInput
pub mod Capture
pub mod WebRtc
pub mod History
pub mod ScreenShare
pub mod ClipboardSync
pub mod Settings
pub mod Session
pub mod ConnectionCode
pub mod Recent
pub mod ConnectionInput
pub mod Viewer
mod Tests
