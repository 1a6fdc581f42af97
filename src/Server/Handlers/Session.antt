-- ===== src/Server/Handlers/Session.antt =====
-- server/socket/handlers.ts: registration and the life of a connection room.
use lantern_remote.Common.{
  not, ◌&&◌, ◌||◌, [], ◌∷◌, ◌++◌, Option, none, some, Text, ◌==◌, present, if◌then◌else◌, Bool,
  List, false, true,
}
use lantern_remote.Value.{Value}
use lantern_remote.Shared.Signaling
use lantern_remote.Shared.Signaling.{
  parse_register_device_payload, parse_connection_request_payload, parse_room_action_payload,
  parse_rejection_payload,
}
use lantern_remote.Server.Rooms.{
  ConnectionRoom, is_pending, create_pending, get_room, get_by_device, accept, remove,
}
use lantern_remote.Server.Registry.{register, unregister_socket, get_socket}
use lantern_remote.Server.Handlers.{
  Runtime, SignalingServer, left, offline, device_online, device_offline, incoming_connection,
  connection_accepted, connection_rejected, peer_disconnected, Effect, emit, emit_to, emit_all,
  join, Outcome, Attempt, ◌>>=◌, ◌>>◌, or_refuse, unless, settle, done, caller, live_socket,
  close_if, ended_by, end_room,
}

-- The registration of a parsed id.
abbrev pub registered : Text → Text → SignalingServer → Attempt Outcome
registered socket d s =
    let (s', ended) =
      end_room s d (ended_by socket (get_socket d s.registry) (get_by_device d s.rooms)) in
    let (displaced, registry) = register d socket s'.registry in
    done (record s' { registry = registry })
      (ended ++ (close_if displaced ++ (emit socket (device_online d) ∷ []))) none

unfoldable pub register_device : Text → Value → SignalingServer → Outcome
register_device socket raw s = settle s (do
  d ← or_refuse (parse_register_device_payload raw) Signaling.invalid_id
  registered socket d s)

abbrev pub is_busy : Text → SignalingServer → Bool
is_busy d s = elim (get_by_device d s.rooms) [ none ↦ false | some room ↦ true ]

abbrev pub requested :
    Runtime → Text → Text → Text → Text → Text → SignalingServer → Attempt Outcome
requested rt socket requester target token host_socket s =
    let (room, rooms) = create_pending rt.uuid rt.now requester target socket s.rooms in
    done (record s { rooms = rooms })
      (join socket room.id ∷ emit host_socket (incoming_connection room.id requester token) ∷ [])
      (some room.id)

unfoldable pub connection_request : Runtime → Text → Value → SignalingServer → Outcome
connection_request rt socket raw s = settle s (do
  requester ← caller socket s
  payload ← or_refuse (parse_connection_request_payload raw) Signaling.invalid_id
  unless (payload.target_device_id == requester) Signaling.self_connect
  unless (is_busy requester s || is_busy payload.target_device_id s) Signaling.already_in_session
  host_socket ← live_socket rt payload.target_device_id s
  requested rt socket requester payload.target_device_id payload.token host_socket s)

unfoldable pub connection_accepted_by : Text → Value → SignalingServer → Outcome
connection_accepted_by socket raw s = settle s (do
  host ← caller socket s
  room_id ← or_refuse (parse_room_action_payload raw) Signaling.room_not_found
  room ← or_refuse (get_room room_id s.rooms) Signaling.room_not_found
  unless (not (room.host_device_id == host) || not (is_pending room.status)) Signaling.unauthorized
  done (record s { rooms = (accept room.id socket s.rooms).1 })
      (join socket room.id ∷ emit_to room.client_socket_id (connection_accepted room.id host) ∷ [])
      (some room.id))

unfoldable pub connection_rejected_by : Text → Value → SignalingServer → Outcome
connection_rejected_by socket raw s = settle s (do
  host ← caller socket s
  payload ← or_refuse (parse_rejection_payload raw) Signaling.room_not_found
  room ← or_refuse (get_room payload.room_id s.rooms) Signaling.room_not_found
  unless (not (room.host_device_id == host)) Signaling.unauthorized
  done (record s { rooms = (remove room.id s.rooms).1 })
      (emit_to room.client_socket_id (connection_rejected room.id host payload.reason) ∷ [])
      (some room.id))

-- `payload ? rooms.get(payload.roomId) : rooms.getByDevice(deviceId)`
abbrev pub addressed : Option Text → Text → SignalingServer → Option ConnectionRoom
addressed none d s = get_by_device d s.rooms
addressed (some room_id) d s = get_room room_id s.rooms

unfoldable pub disconnect_device : Text → Value → SignalingServer → Outcome
disconnect_device socket raw s = settle s (do
  d ← caller socket s
  room ← or_refuse (addressed (parse_room_action_payload raw) d s) Signaling.room_not_found
  unless (not (room.client_device_id == d) && not (room.host_device_id == d)) Signaling.unauthorized
  done (record s { rooms = (remove room.id s.rooms).1 })
      (emit_to room.id (peer_disconnected room.id left) ∷ []) (some room.id))

-- The socket of the other member, as the room has it.
abbrev pub peer_socket : Text → ConnectionRoom → Option Text
peer_socket socket room =
    present
      (if room.client_socket_id == socket then room.host_socket_id else some room.client_socket_id)

abbrev pub tell_peer : Option Text → Text → List Effect
tell_peer none room_id = []
tell_peer (some peer) room_id = emit_to peer (peer_disconnected room_id offline) ∷ []

abbrev pub drop_room :
    Text → SignalingServer → Option ConnectionRoom → SignalingServer × List Effect
drop_room socket s none = (s, [])
drop_room socket s (some room) = (
  record s { rooms = (remove room.id s.rooms).1 },
  emit_to room.id (peer_disconnected room.id offline) ∷ tell_peer (peer_socket socket room) room.id,
)

abbrev pub drop_device : Text → SignalingServer → Option Text → SignalingServer × List Effect
drop_device socket s none = (s, [])
drop_device socket s (some d) =
    let (s', told) = drop_room socket s (get_by_device d s.rooms) in
    (s', told ++ (emit_all (device_offline d) ∷ []))

-- The `disconnect` event of a socket: there is nobody to acknowledge to.
unfoldable pub socket_disconnect : Text → SignalingServer → SignalingServer × List Effect
socket_disconnect socket s =
    let (d, registry) = unregister_socket socket s.registry in
    drop_device socket (record s { registry = registry }) d
