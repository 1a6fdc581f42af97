-- ===== src/Client/Tests/Signaling.antt =====
-- The theorems on the signaling client at concrete messages.
use lantern_remote.Common.{◌≡◌, refl, true, false, none, some, Text, text, Text-discrete}
use lantern_remote.Value.{Value, string, object, field, end, read}
use lantern_remote.Shared.DeviceId.{normalize_device_id, parse_device_id}
use lantern_remote.Shared.ConnectionToken.{
  token_alphabet, includes, code_points, is_valid_token_format,
}
use lantern_remote.Shared.Signaling
use lantern_remote.Shared.Signaling.{
  parse_register_device_payload, parse_connection_request_payload, parse_room_action_payload,
  parse_rejection_payload, rejection_reason, sdp_mid_of, line_index_of, ConnectionRejectionReason,
  ConnectionRequestPayload, WebRtcSessionPayload, IceCandidatePayload,
}
use lantern_remote.Server.Handlers.{webrtc_session, ice_candidate, pass, ok}
use lantern_remote.Server.Handlers.Bodies.{body}
use lantern_remote.Client.Signaling.{
  SignalingService, connection_to, request_body, request_connection_begin, request_connection_end,
}
use lantern_remote.Client.Signaling.Requests.{parse-request_connection}

abbrev alice : Text
unfolding text
alice = text "111111111"

abbrev bob : Text
unfolding text
bob = text "222222222"

abbrev room_1 : Text
unfolding text
room_1 = text "room-0001"

abbrev code : Text
unfolding text
code = text "ABCDEF"

abbrev some_sdp : Text
unfolding text
some_sdp = text "v=0"

abbrev registration : Value
registration = object (field "deviceId" (string alice) end)

abbrev request : Value
request = object (field "targetDeviceId" (string bob) (field "token" (string code) end))

abbrev asked : ConnectionRequestPayload
asked = record { target_device_id = bob; token = code }

abbrev description : WebRtcSessionPayload
description = record { room_id = room_1; sdp = some_sdp; kind = Signaling.offer }

abbrev candidate : IceCandidatePayload
candidate = record {
  room_id = room_1;
  candidate = some_sdp;
  sdp_mid = none;
  sdp_m_line_index = none;
}

abbrev online : SignalingService
online = record { socket = some true; device_id = some alice; request_timer = false }

-- Names what the validators compute with.
run : Unit {0}
unfolding text Text-discrete read normalize_device_id parse_device_id token_alphabet includes
    code_points is_valid_token_format parse_register_device_payload parse_connection_request_payload
    parse_room_action_payload Signaling.parse_session_payload Signaling.parse_ice_candidate_payload
    sdp_mid_of line_index_of request_connection_begin request_connection_end body request_body
run = tt

registered : parse_register_device_payload registration ≡ some alice
unfolding run
registered = refl

requested : parse_connection_request_payload request ≡ some asked
unfolding run
requested = refl

described :
    Signaling.parse_session_payload (body (webrtc_session description)) Signaling.offer
    ≡ some description
unfolding run
described = refl

trickled : Signaling.parse_ice_candidate_payload (body (ice_candidate candidate)) ≡ some candidate
unfolding run
trickled = refl

begun : request_connection_begin bob code online ≡ pass (connection_to bob code)
unfolding run
begun = refl

granted : (request_connection_end (some (ok (some room_1))) online).1 ≡ pass room_1
unfolding run
granted = refl

parse-request_connection_example :
    (d : Text) × (parse_device_id bob ≡ some d)
    × (parse_connection_request_payload (request_body (connection_to bob code))
        ≡ some (record { target_device_id = d; token = code }))
parse-request_connection_example =
    parse-request_connection bob code online (connection_to bob code) begun
