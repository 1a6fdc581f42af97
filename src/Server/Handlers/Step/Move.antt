-- ===== src/Server/Handlers/Step/Move.antt =====
-- server/socket/handlers.ts: how one event may change a room, and on whose behalf.
use lantern_remote.Common.{◌≡◌, ◌⊎◌, Option, none, some, Text}
use lantern_remote.Value.{Value}
use lantern_remote.Shared.Signaling.{parse_register_device_payload, parse_room_action_payload}
use lantern_remote.Server.Rooms.{ConnectionRoom, pending, admitted}
use lantern_remote.Server.Registry.{get_device_id}
use lantern_remote.Server.Handlers.{SignalingServer}
use lantern_remote.Server.Handlers.Step.{Event, register_device_event, connection_accepted_event}
use lantern_remote.Server.Handlers.Step.Safety.{IsMember}

-- The event of the socket speaks for the device: it is registered for it, or just registers.
abbrev pub SpeaksFor : Text → Event → SignalingServer → Text → Type 0
SpeaksFor socket e s d =
    (get_device_id socket s.registry ≡ some d)
    ⊎ ((raw : Value) × (e ≡ register_device_event raw)
        × (parse_register_device_payload raw ≡ some d))

-- The event is the acceptance of the room.
abbrev pub Accepts : Event → Text → Type 0
Accepts e room_id =
    (raw : Value) × (e ≡ connection_accepted_event raw)
    × (parse_room_action_payload raw ≡ some room_id)

-- How one event may change what a room id stands for.
pub data Move (socket : Text) (e : Event) (s : SignalingServer)
    (before after : Option ConnectionRoom) : Type 0 where
  keeps : after ≡ before → Move socket e s before after
  opens :
      (r : ConnectionRoom)
      → before ≡ none
      → after ≡ some r
      → r.status ≡ pending
      → SpeaksFor socket e s r.client_device_id
      → Move socket e s before after
  admits :
      (r : ConnectionRoom)
      → before ≡ some r
      → r.status ≡ pending
      → SpeaksFor socket e s r.host_device_id
      → Accepts e r.id
      → after ≡ some (admitted r socket)
      → Move socket e s before after
  closes :
      (r : ConnectionRoom) (d : Text)
      → before ≡ some r
      → IsMember d r
      → SpeaksFor socket e s d
      → after ≡ none
      → Move socket e s before after
