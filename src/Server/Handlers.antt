-- ===== src/Server/Handlers.antt =====
-- server/socket/handlers.ts and the timer of server/index.ts. A handler takes the calling socket,
-- the raw payload and what the runtime answers, and gives the new state, what socket.io is told to
-- do, in order, and the acknowledgement.
pub mod Ensures
pub mod Session
pub mod Relay
pub mod Step
pub mod Bodies
use lantern_remote.Common.{
  ℕ, Bool, true, false, List, [], ◌∷◌, ◌++◌, Option, none, some, Text, ◌==◌, present, if◌then◌else◌,
}
use lantern_remote.Value.{Value}
use lantern_remote.Shared.Signaling.{
  SignalingErrorCode, ConnectionRejectionReason, SdpType, offer, answer, WebRtcSessionPayload,
  IceCandidatePayload, parse_register_device_payload, parse_connection_request_payload,
  parse_room_action_payload, parse_rejection_payload, parse_session_payload,
  parse_ice_candidate_payload,
}
use lantern_remote.Shared.Signaling
use lantern_remote.Server.Rooms.{ConnectionRoom, ConnectionRooms, no_rooms, get_by_device, remove}
use lantern_remote.Server.Registry.{DeviceRegistry, no_devices, register, get_socket, get_device_id}

-- What the runtime answers during one event: which sockets are connected, the next `randomUUID`
-- and the time.
pub record Runtime : Type 0 where
  pub connected : Text → Bool
  pub uuid : Text
  pub now : ℕ

pub record SignalingServer : Type 0 where
  pub registry : DeviceRegistry
  pub rooms : ConnectionRooms

abbrev pub started : SignalingServer
started = record { registry = no_devices; rooms = no_rooms }

pub data DisconnectReason : Type 0 where
  left offline timeout rejected : DisconnectReason

pub data Message : Type 0 where
  device_online device_offline : (device_id : Text) → Message
  incoming_connection : (room_id from_device_id token : Text) → Message
  connection_accepted : (room_id host_device_id : Text) → Message
  connection_rejected : (room_id host_device_id : Text) → ConnectionRejectionReason → Message
  peer_disconnected : (room_id : Text) → DisconnectReason → Message
  webrtc_session : WebRtcSessionPayload → Message
  ice_candidate : IceCandidatePayload → Message

-- `emit` goes to a socket, `emit_to` to the members of a socket.io room (each socket is alone in
-- the room of its own id), `emit_all` to everybody.
pub data Effect : Type 0 where
  emit : (socket : Text) → Message → Effect
  emit_to : (target : Text) → Message → Effect
  emit_all : Message → Effect
  join : (socket room_id : Text) → Effect
  close : (socket : Text) → Effect

pub data SignalingAck : Type 0 where
  ok : Option Text → SignalingAck
  failed : SignalingErrorCode → SignalingAck

pub record Outcome : Type 0 where
  pub server : SignalingServer
  pub effects : List Effect
  pub ack : SignalingAck

-- A handler's body: it goes on, or has acknowledged an error and returned.
pub data Attempt {ℓ} (A : Type ℓ) : Type ℓ where
  pass : A → Attempt A
  refuse : SignalingErrorCode → Attempt A

infixl 5 ◌>>=◌ ◌>>◌
abbrev pub ◌>>=◌ {ℓ κ} : {A : Type ℓ} {B : Type κ} → Attempt A → (A → Attempt B) → Attempt B
pass a >>= f = f a
refuse e >>= f = refuse e

abbrev pub ◌>>◌ {ℓ} : {B : Type ℓ} → Attempt (Unit {0}) → Attempt B → Attempt B
m >> k = m >>= λ _. k

abbrev pub or_refuse {ℓ} : {A : Type ℓ} → Option A → SignalingErrorCode → Attempt A
or_refuse none e = refuse e
or_refuse (some a) e = pass a

abbrev pub unless : Bool → SignalingErrorCode → Attempt (Unit {0})
unless true e = refuse e
unless false e = pass tt

abbrev pub settle : SignalingServer → Attempt Outcome → Outcome
settle s (pass o) = o
settle s (refuse e) = record { server = s; effects = []; ack = failed e }

abbrev pub done : SignalingServer → List Effect → Option Text → Attempt Outcome
done s effects room_id = pass (record { server = s; effects = effects; ack = ok room_id })

-- `registry.getDeviceId(socket.id)`, where an empty id counts as none
abbrev pub caller : Text → SignalingServer → Attempt Text
caller socket s = or_refuse (present (get_device_id socket s.registry)) Signaling.not_registered

-- `socket?.connected`
abbrev pub live : (Text → Bool) → Option Text → Bool
live connected none = false
live connected (some socket) = connected socket

abbrev pub live_socket : Runtime → Text → SignalingServer → Attempt Text
live_socket rt d s = elim (get_socket d s.registry) [
  | none ↦ refuse Signaling.device_offline
  | some socket ↦ if rt.connected socket then pass socket else refuse Signaling.device_offline
]

-- `registry.getSocket(d)?.emit(m)`
abbrev pub emit_if : Option Text → Message → List Effect
emit_if none m = []
emit_if (some socket) m = emit socket m ∷ []

abbrev pub close_if : Option Text → List Effect
close_if none = []
close_if (some socket) = close socket ∷ []

abbrev pub other_member : ConnectionRoom → Text → Text
other_member room d =
    if room.client_device_id == d then room.host_device_id else room.client_device_id

-- The room that a registration under `d` from a new socket ends, with the socket it displaces.
abbrev pub ended_by : Text → Option Text → Option ConnectionRoom → Option (Text × ConnectionRoom)
ended_by socket (some previous) (some room) =
    if previous == socket then none else some (previous, room)
ended_by socket _ _ = none

abbrev pub end_room :
    SignalingServer → Text → Option (Text × ConnectionRoom) → SignalingServer × List Effect
end_room s d none = (s, [])
end_room s d (some (previous, room)) = (
  record s { rooms = (remove room.id s.rooms).1 },
  emit previous (peer_disconnected room.id offline)
      ∷ emit_if (get_socket (other_member room d) s.registry) (peer_disconnected room.id offline),
)
