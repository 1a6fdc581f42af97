-- ===== src/Server/Handlers/Relay.antt =====
-- server/socket/handlers.ts: the relay of session descriptions and ICE candidates.
pub mod Routing
use lantern_remote.Common.{
  not, ◌||◌, [], ◌∷◌, Option, none, some, Text, ◌==◌, present, if◌then◌else◌,
}
use lantern_remote.Value.{Value}
use lantern_remote.Shared.Signaling
use lantern_remote.Shared.Signaling.{parse_session_payload, parse_ice_candidate_payload}
use lantern_remote.Server.Rooms.{ConnectionRoom, is_pending, get_room}
use lantern_remote.Server.Handlers.{
  Runtime, SignalingServer, webrtc_session, ice_candidate, emit, Outcome, ◌>>=◌, ◌>>◌, or_refuse,
  unless, settle, done, caller, live_socket,
}

unfoldable pub webrtc_offer : Runtime → Text → Value → SignalingServer → Outcome
webrtc_offer rt socket raw s = settle s (do
  sender ← caller socket s
  payload ← or_refuse (parse_session_payload raw Signaling.offer) Signaling.room_not_found
  room ← or_refuse (get_room payload.room_id s.rooms) Signaling.room_not_found
  unless (is_pending room.status || not (room.client_device_id == sender)) Signaling.unauthorized
  host_socket ← live_socket rt room.host_device_id s
  done s (emit host_socket (webrtc_session payload) ∷ []) (some room.id))

unfoldable pub webrtc_answer : Runtime → Text → Value → SignalingServer → Outcome
webrtc_answer rt socket raw s = settle s (do
  sender ← caller socket s
  payload ← or_refuse (parse_session_payload raw Signaling.answer) Signaling.room_not_found
  room ← or_refuse (get_room payload.room_id s.rooms) Signaling.room_not_found
  unless (is_pending room.status || not (room.host_device_id == sender)) Signaling.unauthorized
  client_socket ← live_socket rt room.client_device_id s
  done s (emit client_socket (webrtc_session payload) ∷ []) (some room.id))

-- The member that is not the sender; `none` for a stranger.
abbrev pub peer_device : ConnectionRoom → Text → Option Text
peer_device room sender =
    if room.client_device_id == sender
    then some room.host_device_id
    else (if room.host_device_id == sender then some room.client_device_id else none)

unfoldable pub relay_ice_candidate : Runtime → Text → Value → SignalingServer → Outcome
relay_ice_candidate rt socket raw s = settle s (do
  sender ← caller socket s
  payload ← or_refuse (parse_ice_candidate_payload raw) Signaling.room_not_found
  room ← or_refuse (get_room payload.room_id s.rooms) Signaling.room_not_found
  unless (is_pending room.status) Signaling.room_not_found
  peer ← or_refuse (present (peer_device room sender)) Signaling.unauthorized
  peer_socket ← live_socket rt peer s
  done s (emit peer_socket (ice_candidate payload) ∷ []) (some room.id))
