-- ===== src/Lib.antt =====
-- Verification of Lantern Remote, a remote desktop application: a signaling server (server/), a
-- desktop main process (electron/), a renderer (src/) and the protocol that they share (shared/).
--
-- How the parts interact. A client's renderer asks the server for a connection to a host's device
-- id; the server opens a pending room and passes the request, with the connection code, to the
-- host; the host checks the code in its main process and accepts or rejects. In an accepted room the
-- server relays session descriptions and ICE candidates; from then on the peers talk directly, over
-- channels for control, input and clipboard frames.
--
-- The files.
--   Common, Dict, Value: shared names, `Map` as an association list in insertion order, and the
--     values of type `unknown` that validators read, with doubles as exact dyadic fractions.
--   Shared: shared/. DeviceId (deviceId.ts), ConnectionToken (connectionToken.ts), Signaling
--     (signaling.ts), Clipboard (clipboard.ts, controlMessages.ts), RemoteInput (remoteInput.ts,
--     with the key whitelist in RemoteInput/Keys).
--   Server: server/. Rooms (rooms/connectionRooms.ts), Registry (socket/deviceRegistry.ts; its View
--     is a quotient, a registry up to what its lookups answer, and Refine holds one map in place of
--     the two), Handlers (socket/handlers.ts;
--     Session and Relay hold the listeners, Bodies the objects emitted, Step the events, the timer
--     of index.ts and the reachable states).
--   Host: electron/. TokenService (services/ConnectionTokenService.ts), Identity
--     (services/DeviceIdentityService.ts, with the file that keeps the id), Clipboard
--     (services/ClipboardService.ts), Logger (services/Logger.ts; Rotation has the files), Input
--     (services/input/, an adapter being a record of operations that give a command's arguments,
--     in Linux and Mac, the promises on which the commands run in Queue, how they end in Runner, and
--     services/RemoteInputService.ts in Input/Dispatch), Ipc (main/ipc.ts: the
--     renderer's calls, delegated to these services).
--   Client: src/. Clipboard (src/services/ClipboardService.ts), Signaling
--     (src/services/SignalingService.ts; Inbound holds its validators, Events its listeners), Store
--     (src/stores/connectionStore.ts), RemoteInput and Capture (src/services/RemoteInputService.ts:
--     the host's side and the client's), WebRtc (src/services/WebRTCService.ts; IceServers, Handlers,
--     and Run for any order of calls and events), ScreenShare (src/hooks/useScreenShare.ts,
--     src/services/ScreenCaptureService.ts), History and Settings (src/stores/historyStore.ts,
--     settingsStore.ts), ClipboardSync (src/hooks/useClipboardSync.ts, over Clipboard), Session
--     (src/hooks/useSignalingSession.ts; Listeners, Actions, and Run for any order of events; Mount
--     is the effect of the hook, with src/stores/deviceStore.ts), ConnectionCode
--     (src/hooks/useConnectionToken.ts), Viewer (src/components/RemoteDesktopViewer.tsx; Effects holds
--     its events, Toolbar ConnectionToolbar.tsx), ConnectionInput (src/components/ConnectionInput.tsx),
--     Recent (src/components/RecentConnections.tsx).
--   Consent: the server among any sockets, one of which has a host's window behind it, over Server and
--     Client/Session.
--   SignalingPath: what a running server emits against what the clients' validators let through, and
--     the handshake from a request to a negotiated session (SignalingPath/Handshake),
--     over Server and Client/Signaling.
--   InputPath: an input message from the capture of the client to the main process of the host, over
--     the modules of both sides.
--
-- How code becomes definitions. A string is its list of UTF-16 code units. A class is a record; a
-- method returns the new state with its result. A listener of the server returns the new state,
-- what socket.io is told to do, in order, and the acknowledgement. A method that awaits is one
-- step before and one after. The clock, random numbers, fresh ids, the set of connected sockets,
-- `toUpperCase` and JSON are arguments; what the code relies on them for is a hypothesis. A socket
-- object is named by its id, a browser's connection or channel by a number. Products, quotients and
-- differences of doubles are parameters, comparisons and `Math.round` are exact; natural numbers are
-- unbounded. The events of a run come in any order, and no function needs fuel.
--
-- Not modelled: rendering, the layout of the pages and the components that only show values of the
-- stores, the types of a file transfer that nothing implements (shared/fileTransfer.ts), what
-- Electron, the browser's media and WebRTC interfaces and the file system do with a call, and the
-- start-up of the processes.
mod Common
mod Dict
mod Value
pub mod Shared
pub mod Server
pub mod Host
pub mod Client
pub mod InputPath
pub mod Consent
pub mod SignalingPath
