-- ===== src/Consent/Tests.antt =====
-- A session that the user of the host consents to.
use lantern_remote.Common.{arith, ◌≢◌, refl, true, List, [], ◌∷◌, Option, none, Text, text}
use lantern_remote.Dict.{get}
use lantern_remote.Value.{Number, Value}
use lantern_remote.Shared.RemoteInput.{RemoteInputMessage}
use lantern_remote.Server.Rooms.{get_room}
use lantern_remote.Server.Handlers.{started}
use lantern_remote.Server.Handlers.Step.{IsUnused}
use lantern_remote.Server.Tests.{
  runtime, alice, bob, socket_a, socket_b, room_1, room_2, code, registers, requests, accepts,
  one_online, both_online, requested, in_session, session_room, in_session-room, IsUnused-both,
  IsUnused-requested, room_1-ne,
}
use lantern_remote.Client.Signaling.{request_body}
use lantern_remote.Client.Signaling.Inbound.{IncomingConnectionPayload}
use lantern_remote.Client.Session.Listeners.{token_checked}
use lantern_remote.Client.Session.Actions.{accept_incoming_begin}
use lantern_remote.Client.Session.Run.{SessionEvent, token_check, accept_begin, step, run}
use lantern_remote.Consent.{Asked, here, Joint, starts, acts, stranger, sends, Consented}
use lantern_remote.Consent.Given.{consent}

abbrev parse_json : Text → Option Value
parse_json s = none

abbrev round : Number → Number
round n = n

abbrev summarize : RemoteInputMessage → Text
summarize m = []

abbrev payload : IncomingConnectionPayload
payload = record { room_id = room_1; from_device_id = alice; token = code }

abbrev pressed : List SessionEvent
pressed = accept_begin ∷ (token_check payload true ∷ [])

asked : Asked parse_json round summarize room_1 pressed
unfolding run step token_checked accept_incoming_begin
asked = here accept_begin (token_check payload true ∷ []) refl

socket_a-ne : socket_a ≢ socket_b
unfolding text
socket_a-ne e = ground arith

IsUnused-started : IsUnused (runtime room_1) started
unfolding get_room get
IsUnused-started = (room_1-ne, refl)

one-Joint : Joint parse_json round summarize socket_b one_online []
one-Joint = stranger (runtime room_1) socket_a (registers alice) socket_a-ne IsUnused-started starts

both-Joint : Joint parse_json round summarize socket_b both_online []
both-Joint = sends (runtime room_1) (registers bob) tt IsUnused-both.0 one-Joint

requested-Joint : Joint parse_json round summarize socket_b requested []
requested-Joint =
    stranger (runtime room_1) socket_a (requests bob) socket_a-ne IsUnused-both.1 both-Joint

pressed-Joint : Joint parse_json round summarize socket_b requested pressed
pressed-Joint = acts accept_begin (acts (token_check payload true) requested-Joint)

in_session-Joint : Joint parse_json round summarize socket_b in_session pressed
unfolding request_body
in_session-Joint =
    sends (runtime room_2) (accepts room_1) (room_1, refl, asked) IsUnused-requested pressed-Joint

consent_example : Consented parse_json round summarize room_1 pressed
consent_example =
    consent parse_json round summarize socket_b in_session-Joint room_1 session_room in_session-room
      refl refl
