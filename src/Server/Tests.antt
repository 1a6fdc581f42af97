-- ===== src/Server/Tests.antt =====
-- Runs of the server on concrete events, and its theorems at the states they lead to.
mod Views
use lantern_remote.Common.{
  ◌≡◌, ◌≢◌, refl, inl, true, [], ◌∷◌, none, some, arith, Text, text, Text-discrete,
}
use lantern_remote.Dict.{get, put, del}
use lantern_remote.Value.{Value, string, object, end, field, read}
use lantern_remote.Shared.DeviceId.{normalize_device_id, parse_device_id}
use lantern_remote.Shared.ConnectionToken.{
  token_alphabet, includes, code_points, is_valid_token_format,
}
use lantern_remote.Shared.Signaling
use lantern_remote.Shared.Signaling.{
  parse_register_device_payload, parse_connection_request_payload, parse_room_action_payload,
}
use lantern_remote.Shared.Signaling.{
  parse_rejection_payload, parse_session_payload, parse_ice_candidate_payload, rejection_reason,
  sdp_mid_of, line_index_of,
}
use lantern_remote.Server.Rooms.{
  remove_all, expire_pending, ConnectionRoom, accepted, create_pending, new_room, admitted,
  get_room, get_by_device, accept, remove,
}
use lantern_remote.Server.Registry.{unregister_socket, register, get_socket, get_device_id}
use lantern_remote.Server.Handlers.{Runtime, SignalingServer, started, webrtc_session, emit}
use lantern_remote.Server.Handlers.Relay.{webrtc_offer, webrtc_answer, relay_ice_candidate}
use lantern_remote.Server.Handlers.Session.{
  connection_rejected_by, disconnect_device, socket_disconnect, register_device, connection_request,
  connection_accepted_by,
}
use lantern_remote.Server.Handlers.Step.{
  sweep, Event, register_device_event, connection_request_event, connection_accepted_event, step,
  IsUnused, Reachable, start, event,
}
use lantern_remote.Server.Handlers.Step.Lifecycle.{step-Move}
use lantern_remote.Server.Handlers.Step.Move.{Move}
use lantern_remote.Server.Handlers.Relay.Routing.{
  Relays, RoutedSession, RoutedCandidate, webrtc_offer-Relays, webrtc_answer-Relays,
  relay_ice_candidate-Relays,
}
use lantern_remote.Server.Handlers.Step.Invariant.{IsSound}
use lantern_remote.Server.Handlers.Step.Safety.{Reachable-IsSound, one_session}

abbrev pub runtime : Text → Runtime
runtime uuid = record { connected = λ socket. true; uuid = uuid; now = 1000 }

abbrev pub alice : Text
unfolding text
alice = text "111111111"

abbrev pub bob : Text
unfolding text
bob = text "222222222"

abbrev pub socket_a : Text
unfolding text
socket_a = text "sa"

abbrev pub socket_b : Text
unfolding text
socket_b = text "sb"

abbrev pub room_1 : Text
unfolding text
room_1 = text "room-0001"

abbrev pub room_2 : Text
unfolding text
room_2 = text "room-0002"

abbrev pub code : Text
unfolding text
code = text "ABCDEF"

abbrev pub registers : Text → Event
registers d = register_device_event (object (field "deviceId" (string d) end))

abbrev pub requests : Text → Event
requests d =
    connection_request_event
      (object (field "targetDeviceId" (string d) (field "token" (string code) end)))

abbrev pub accepts : Text → Event
accepts room_id = connection_accepted_event (object (field "roomId" (string room_id) end))

abbrev pub one_online : SignalingServer
one_online = step (runtime room_1) socket_a (registers alice) started

abbrev pub both_online : SignalingServer
both_online = step (runtime room_1) socket_b (registers bob) one_online

abbrev pub requested : SignalingServer
requested = step (runtime room_1) socket_a (requests bob) both_online

abbrev pub in_session : SignalingServer
in_session = step (runtime room_2) socket_b (accepts room_1) requested

abbrev pub session_room : ConnectionRoom
session_room = record {
  id = room_1;
  client_device_id = alice;
  host_device_id = bob;
  client_socket_id = socket_a;
  host_socket_id = some socket_b;
  status = accepted;
  created_at = 1000;
}

-- Names what a run of the server computes with.
run : Unit {0}
unfolding text Text-discrete get put del read normalize_device_id parse_device_id token_alphabet
    includes code_points is_valid_token_format parse_register_device_payload
    parse_connection_request_payload parse_room_action_payload parse_rejection_payload
    parse_session_payload parse_ice_candidate_payload rejection_reason sdp_mid_of line_index_of
    new_room create_pending admitted get_room get_by_device accept remove remove_all expire_pending
    register get_socket get_device_id unregister_socket register_device connection_request
    connection_accepted_by connection_rejected_by disconnect_device socket_disconnect webrtc_offer
    webrtc_answer relay_ice_candidate step sweep
run = tt

pub in_session-room : get_room room_1 in_session.rooms ≡ some session_room
unfolding run
in_session-room = refl

pub room_1-ne : room_1 ≢ []
unfolding text
room_1-ne e = cc

room_2-ne : room_2 ≢ []
unfolding text
room_2-ne e = cc

one_online-Reachable : Reachable one_online
unfolding get_room get
one_online-Reachable = event (runtime room_1) socket_a (registers alice) (room_1-ne, refl) start

pub IsUnused-both : IsUnused (runtime room_1) one_online × IsUnused (runtime room_1) both_online
unfolding run
IsUnused-both = ((room_1-ne, refl), (room_1-ne, refl))

pub both_online-Reachable : Reachable both_online
both_online-Reachable =
    event (runtime room_1) socket_b (registers bob) IsUnused-both.0 one_online-Reachable

requested-Reachable : Reachable requested
requested-Reachable =
    event (runtime room_1) socket_a (requests bob) IsUnused-both.1 both_online-Reachable

pub IsUnused-requested : IsUnused (runtime room_2) requested
unfolding run
IsUnused-requested = (room_2-ne, refl)

pub in_session-Reachable : Reachable in_session
in_session-Reachable =
    event (runtime room_2) socket_b (accepts room_1) IsUnused-requested requested-Reachable

Reachable-IsSound_example : IsSound in_session
Reachable-IsSound_example = Reachable-IsSound in_session-Reachable

one_session_example : (room_1 ≡ room_1) × (session_room ≡ session_room) × (alice ≢ bob)
one_session_example =
    one_session in_session-Reachable alice room_1 room_1 session_room session_room in_session-room
      in_session-room (inl refl) (inl refl)

step-Move_example :
    Move socket_b
      (accepts room_1)
      requested
      (get_room room_1 requested.rooms)
      (get_room room_1 in_session.rooms)
step-Move_example =
    step-Move requested-Reachable (runtime room_2) socket_b (accepts room_1) room_1
      IsUnused-requested

alice_socket : get_device_id socket_a in_session.registry ≡ some alice
unfolding run
alice_socket = refl

abbrev offers : Value
unfolding text
offers = object (
    field "roomId" (string room_1)
      (field "sdp" (string (text "v=0")) (field "type" (string (text "offer")) end)))

offer_sent :
    (webrtc_offer (runtime room_2) socket_a offers in_session).effects
    ≡ emit socket_b
        (webrtc_session (record { room_id = room_1; sdp = text "v=0"; kind = Signaling.offer }))
      ∷ []
unfolding run
offer_sent = refl

webrtc_offer-Relays_example :
    Relays in_session
      (RoutedSession
        (runtime room_2)
        socket_a
        in_session
        offers
        Signaling.offer
        (λ r. r.client_device_id)
        (λ r. r.host_device_id))
      (webrtc_offer (runtime room_2) socket_a offers in_session)
webrtc_offer-Relays_example = webrtc_offer-Relays (runtime room_2) socket_a offers in_session

webrtc_answer-Relays_example :
    Relays in_session
      (RoutedSession
        (runtime room_2)
        socket_b
        in_session
        offers
        Signaling.answer
        (λ r. r.host_device_id)
        (λ r. r.client_device_id))
      (webrtc_answer (runtime room_2) socket_b offers in_session)
webrtc_answer-Relays_example = webrtc_answer-Relays (runtime room_2) socket_b offers in_session

relay_ice_candidate-Relays_example :
    Relays in_session
      (RoutedCandidate (runtime room_2) socket_b in_session offers)
      (relay_ice_candidate (runtime room_2) socket_b offers in_session)
relay_ice_candidate-Relays_example =
    relay_ice_candidate-Relays (runtime room_2) socket_b offers in_session

request_expires : get_room room_1 (expire_pending 36000 requested.rooms).1 ≡ none
unfolding run
request_expires = refl

bob-ne : (bob ≢ alice) × (bob ≢ [])
unfolding text
bob-ne = (ground arith, ground arith)

alice_only : get_device_id socket_a one_online.registry ≡ some alice
unfolding run
alice_only = refl
