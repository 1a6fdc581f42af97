-- ===== src/Server.antt =====
-- server/: the signaling server, which routes presence and connection control between devices.
pub mod Rooms
pub mod Registry
pub mod Handlers
pub mod Tests
