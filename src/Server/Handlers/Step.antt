-- ===== src/Server/Handlers/Step.antt =====
-- The events of the server, one step for each, and the states that they reach: the listeners that
-- `registerSocketHandlers` sets up, and the timer of server/index.ts.
pub mod Invariant
pub mod Safety
pub mod Move
pub mod Moves
pub mod Lifecycle
pub mod Named
use lantern_remote.Common.{◌≡◌, ◌≢◌, List, [], ◌∷◌, ◌++◌, Option, none, some, Text}
use lantern_remote.Value.{Value}
use lantern_remote.Server.Rooms.{ConnectionRoom, get_room, expire_pending}
use lantern_remote.Server.Registry.{get_socket}
use lantern_remote.Server.Handlers.{
  Runtime, SignalingServer, started, timeout, peer_disconnected, Effect, emit_to, emit_if, Outcome,
}
use lantern_remote.Server.Handlers.Session.{
  register_device, connection_request, connection_accepted_by, connection_rejected_by,
  disconnect_device, socket_disconnect,
}
use lantern_remote.Server.Handlers.Relay.{webrtc_offer, webrtc_answer, relay_ice_candidate}

pub data Event : Type 0 where
  register_device_event connection_request_event connection_accepted_event : Value → Event
  connection_rejected_event disconnect_device_event : Value → Event
  webrtc_offer_event webrtc_answer_event ice_candidate_event : Value → Event
  disconnect_event : Event

abbrev pub timeout_notices : List ConnectionRoom → SignalingServer → List Effect
timeout_notices [] s = []
timeout_notices (room ∷ rest) s =
    emit_to room.client_socket_id (peer_disconnected room.id timeout)
    ∷ (emit_if (get_socket room.host_device_id s.registry) (peer_disconnected room.id timeout)
        ++ timeout_notices rest s)

-- The callback of `setInterval`.
unfoldable pub sweep : Runtime → SignalingServer → SignalingServer × List Effect
sweep rt s =
    let (expired, rooms) = expire_pending rt.now s.rooms in
    let s' = record s { rooms = rooms } in (s', timeout_notices expired s')

-- The state after an event of a socket.
unfoldable pub step : Runtime → Text → Event → SignalingServer → SignalingServer
step rt socket (register_device_event raw) s = (register_device socket raw s).server
step rt socket (connection_request_event raw) s = (connection_request rt socket raw s).server
step rt socket (connection_accepted_event raw) s = (connection_accepted_by socket raw s).server
step rt socket (connection_rejected_event raw) s = (connection_rejected_by socket raw s).server
step rt socket (disconnect_device_event raw) s = (disconnect_device socket raw s).server
step rt socket (webrtc_offer_event raw) s = (webrtc_offer rt socket raw s).server
step rt socket (webrtc_answer_event raw) s = (webrtc_answer rt socket raw s).server
step rt socket (ice_candidate_event raw) s = (relay_ice_candidate rt socket raw s).server
step rt socket disconnect_event s = (socket_disconnect socket s).0

-- What socket.io is told to do during an event of a socket.
unfoldable pub sent : Runtime → Text → Event → SignalingServer → List Effect
sent rt socket (register_device_event raw) s = (register_device socket raw s).effects
sent rt socket (connection_request_event raw) s = (connection_request rt socket raw s).effects
sent rt socket (connection_accepted_event raw) s = (connection_accepted_by socket raw s).effects
sent rt socket (connection_rejected_event raw) s = (connection_rejected_by socket raw s).effects
sent rt socket (disconnect_device_event raw) s = (disconnect_device socket raw s).effects
sent rt socket (webrtc_offer_event raw) s = (webrtc_offer rt socket raw s).effects
sent rt socket (webrtc_answer_event raw) s = (webrtc_answer rt socket raw s).effects
sent rt socket (ice_candidate_event raw) s = (relay_ice_candidate rt socket raw s).effects
sent rt socket disconnect_event s = (socket_disconnect socket s).1

-- `randomUUID` gives an id that is not empty and that no room has.
abbrev pub IsUnused : Runtime → SignalingServer → Type 0
IsUnused rt s = (rt.uuid ≢ []) × (get_room rt.uuid s.rooms ≡ none)

-- The states of a running server, under any order of events and sweeps.
pub data Reachable : SignalingServer → Type 0 where
  start : Reachable started
  event :
      {s : SignalingServer} (rt : Runtime) (socket : Text) (e : Event)
      → IsUnused rt s
      → Reachable s
      → Reachable (step rt socket e s)
  swept : {s : SignalingServer} (rt : Runtime) → Reachable s → Reachable (sweep rt s).0
