-- ===== src/Client/Tests/Session.antt =====
-- The theorems on sessions at concrete events.
use lantern_remote.Common.{
  ◌≡◌, refl, true, false, List, [], ◌∷◌, Option, none, some, Text, text, Text-discrete, map, ◌⊎◌,
  ◌++◌,
}
use lantern_remote.Value.{Number, finite, Value, read}
use lantern_remote.Shared.DeviceId.{format_device_id}
use lantern_remote.Shared.Signaling.{offer}
use lantern_remote.Server.Handlers.{left}
use lantern_remote.Client.Session.Run.{
  signaling, effect_cleaned, accept_acked, accept_end, negotiation_timeout,
}
use lantern_remote.Client.Signaling.{on_peer_disconnected, Call}
use lantern_remote.Shared.RemoteInput.{
  RemoteInputMessage, mouse_move, RemoteInputRequest, encode_message, parse_remote_input_message,
}
use lantern_remote.Client.Signaling.Inbound.{IncomingConnectionPayload}
use lantern_remote.Client.Signaling.{on_offer, Call, on_peer_disconnected}
use lantern_remote.Client.Store.{host, IncomingRequest, DisplaySize, initial, reset}
use lantern_remote.Client.RemoteInput.{forward_to_host, frame_message}
use lantern_remote.Client.Session.{Session, apply_input, accept_room, returned}
use lantern_remote.Client.Session.Listeners.{on_remote_input_message, token_checked}
use lantern_remote.Client.Session.Actions.{accept_incoming_begin, reject_incoming_end}
use lantern_remote.Client.Session.Run.{
  SessionEvent, input_message, token_check, accept_begin, reject_end, step, run, accept_acked,
  signaling, effect_cleaned, accept_end, negotiation_timeout,
}
use lantern_remote.Client.Session.Run.Settled.{is_over, run-IsSettled}
use lantern_remote.Client.Session.Run.Teardown.{
  closes_peer, stopped, IsQuiet, closes_peer-IsQuiet, apply_input-IsGated,
}

abbrev half : Number
half = finite false 1 1

abbrev move : RemoteInputMessage
move = mouse_move half half

-- Every frame stands for one message, in place of JSON; sizes are whole numbers already.
abbrev parse_json : Text → Option Value
parse_json frame = some (encode_message move)

abbrev round : Number → Number
round n = n

abbrev summarize : RemoteInputMessage → Text
summarize m = []

abbrev room_1 : Text
unfolding text
room_1 = text "room-0001"

abbrev bob : Text
unfolding text
bob = text "222222222"

abbrev code : Text
unfolding text
code = text "ABCDEF"

abbrev payload : IncomingConnectionPayload
payload = record { room_id = room_1; from_device_id = bob; token = code }

abbrev shown : IncomingRequest
unfolding format_device_id
shown = record { room_id = room_1; from_device_id = format_device_id bob; token = code }

abbrev asked : List SessionEvent
asked = token_check payload true ∷ []

abbrev declined : List SessionEvent
declined = reject_end ∷ asked

abbrev display : DisplaySize
display = record { width = finite false 800 0; height = finite false 600 0 }

abbrev sharing : Session
sharing = record {
  store = record initial {
    role = some host;
    sharing = true;
    local_stream = some room_1;
    shared_display_size = some display;
  };
  negotiation_timer = true;
}

abbrev request : RemoteInputRequest
request = record {
  message = move;
  display_width = finite false 800 0;
  display_height = finite false 600 0;
}

-- Names what the steps compute with.
go : Unit {0}
unfolding text Text-discrete read run step reset token_checked accept_incoming_begin
    reject_incoming_end on_remote_input_message forward_to_host encode_message
    parse_remote_input_message
go = tt

accepting :
    (step parse_json round summarize accept_begin (run parse_json round summarize asked)).1
    ≡ accept_room room_1 ∷ []
unfolding go
accepting = refl

closing : closes_peer (step parse_json round summarize reject_end sharing).1 ≡ true
unfolding go
closing = refl

moving : (step parse_json round summarize (input_message []) sharing).1 ≡ apply_input request ∷ []
unfolding go
moving = refl

is_declined : is_over (run parse_json round summarize declined).store.status ≡ true
unfolding go
is_declined = refl

run-IsSettled_example :
    ((run parse_json round summarize declined).store.room_id ≡ none)
    × ((run parse_json round summarize declined).store.incoming ≡ none)
run-IsSettled_example = run-IsSettled parse_json round summarize declined is_declined

closes_peer-IsQuiet_example :
    let (after, commands) = step parse_json round summarize reject_end sharing in
    (after.negotiation_timer ≡ false)
    × (((reject_end ≡ effect_cleaned) × (after.store ≡ sharing.store))
        ⊎ ((stopped commands ≡ some (some room_1)) × IsQuiet after.store))
closes_peer-IsQuiet_example =
    closes_peer-IsQuiet parse_json round summarize reject_end sharing closing

apply_input-IsGated_example :
    (frame : Text) × (input_message [] ≡ input_message frame)
    × (some host ≡ some host)
    × (true ≡ true)
    × (frame_message (parse_json frame) ≡ some move)
apply_input-IsGated_example =
    apply_input-IsGated parse_json round summarize (input_message []) sharing request moving

-- The client leaves after the request has been accepted.
abbrev client_left : List SessionEvent
client_left =
    signaling (on_peer_disconnected (record { room_id = room_1; reason = left }))
    ∷ (accept_begin ∷ asked)

-- What the client has sent before it left.
abbrev offered : List Call
offered = on_offer (record { room_id = room_1; sdp = []; kind = offer }) ∷ []

abbrev granted : List SessionEvent
granted = map signaling offered ++ (accept_end shown ∷ (accept_acked shown returned ∷ client_left))
