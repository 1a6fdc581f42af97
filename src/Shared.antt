-- ===== src/Shared.antt =====
-- shared/: the protocol that the renderer, the main process and the signaling server agree on.
pub mod DeviceId
pub mod ConnectionToken
pub mod Signaling
pub mod Clipboard
pub mod RemoteInput
mod Tests
