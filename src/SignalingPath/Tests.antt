-- ===== src/SignalingPath/Tests.antt =====
-- The signaling path in a session.
use lantern_remote.Dict.{get, put, del}
use lantern_remote.Value.{string, read}
use lantern_remote.Shared.DeviceId.{normalize_device_id, parse_device_id}
use lantern_remote.Shared.ConnectionToken.{
  token_alphabet, includes, code_points, is_valid_token_format,
}
use lantern_remote.Shared.Signaling
use lantern_remote.Shared.Signaling.{
  WebRtcSessionPayload, parse_register_device_payload, parse_room_action_payload,
}
use lantern_remote.Server.Rooms.{get_by_device}
use lantern_remote.Server.Registry.{register, get_socket, get_device_id}
use lantern_remote.Server.Handlers.{
  ok, incoming_connection, connection_accepted, webrtc_session, join, emit, emit_to,
}
use lantern_remote.Server.Handlers.Bodies.{body}
use lantern_remote.Server.Handlers.Session.{
  register_device, connection_request, connection_accepted_by,
}
use lantern_remote.Server.Handlers.Relay.{webrtc_offer, webrtc_answer}
use lantern_remote.Server.Handlers.Step.{step}
use lantern_remote.Client.Signaling.{connection_to, accept_room, send_session, request_body}
use lantern_remote.Client.Signaling.Inbound.{parse_incoming, parse_decision}
use lantern_remote.SignalingPath.Handshake.{AreReady, handshake}
use lantern_remote.Common.{◌≡◌, refl, true, ◌∷◌, none, some, arith, text, Text-discrete, All, []}
use lantern_remote.Server.Handlers.Step.{sent, sweep, disconnect_event}
use lantern_remote.Server.Tests.{
  socket_b, alice, bob, room_1, code, both_online, both_online-Reachable, runtime, socket_a, room_2,
  in_session, in_session-Reachable,
}
use lantern_remote.SignalingPath.{IsHeard}
use lantern_remote.SignalingPath.Served.{served-IsHeard}

served-IsHeard_example :
    All IsHeard (sent (runtime room_2) socket_a disconnect_event in_session)
    × All IsHeard (sweep (runtime room_2) in_session).1
served-IsHeard_example =
    served-IsHeard (runtime room_2) socket_a disconnect_event in_session-Reachable

abbrev offered : WebRtcSessionPayload
unfolding text
offered = record { room_id = room_1; sdp = text "v=0"; kind = Signaling.offer }

abbrev answered : WebRtcSessionPayload
unfolding text
answered = record { room_id = room_1; sdp = text "v=0"; kind = Signaling.answer }

both-AreReady : AreReady (runtime room_1) both_online socket_a socket_b alice bob
unfolding text Text-discrete get put del read normalize_device_id parse_device_id
    parse_register_device_payload get_by_device register get_socket get_device_id register_device
    step
both-AreReady = record {
  client_calls = refl;
  host_calls = refl;
  client_socket = refl;
  host_socket = refl;
  apart = refl;
  free = refl;
  long_id = omega arith;
  short_id = omega arith;
}

code_shaped : is_valid_token_format (string code) ≡ true
unfolding text token_alphabet includes code_points is_valid_token_format
code_shaped = refl

offer_parses :
    Signaling.parse_session_payload (body (webrtc_session offered)) Signaling.offer ≡ some offered
unfolding text Text-discrete read body parse_room_action_payload Signaling.parse_session_payload
offer_parses = refl

answer_parses :
    Signaling.parse_session_payload (body (webrtc_session answered)) Signaling.answer
    ≡ some answered
unfolding text Text-discrete read body parse_room_action_payload Signaling.parse_session_payload
answer_parses = refl

handshake_example :
    let rt = runtime room_1 in
    let o1 = connection_request rt socket_a (request_body (connection_to bob code)) both_online in
    let o2 = connection_accepted_by socket_b (request_body (accept_room room_1)) o1.server in
    let o3 = webrtc_offer rt socket_a (request_body (send_session offered)) o2.server in
    let o4 = webrtc_answer rt socket_b (request_body (send_session answered)) o3.server in
    (o1.effects
      ≡ join socket_a room_1 ∷ (emit socket_b (incoming_connection room_1 alice code) ∷ []))
    × (parse_incoming (body (incoming_connection room_1 alice code))
        ≡ some (record { room_id = room_1; from_device_id = alice; token = code }))
    × (o2.effects ≡ join socket_b room_1 ∷ (emit_to socket_a (connection_accepted room_1 bob) ∷ []))
    × (parse_decision (body (connection_accepted room_1 bob))
        ≡ some (record { room_id = room_1; host_device_id = bob; reason = none }))
    × (o3.effects ≡ emit socket_b (webrtc_session offered) ∷ [])
    × (o4.effects ≡ emit socket_a (webrtc_session answered) ∷ [])
    × (o1.ack ≡ ok (some room_1))
    × (o2.ack ≡ ok (some room_1))
    × (o3.ack ≡ ok (some room_1))
    × (o4.ack ≡ ok (some room_1))
unfolding offered answered
handshake_example =
    handshake (runtime room_1) both_online socket_a socket_b alice bob both-AreReady
      both_online-Reachable code offered answered code_shaped offer_parses answer_parses refl refl
