-- ===== src/Client/Signaling.antt =====
-- src/services/SignalingService.ts: the socket and the request timer. The socket is reduced to
-- whether it exists and whether it is connected; a method that awaits an acknowledgement is two
-- steps, before and after. An acknowledgement is of the type that the server sends, or `none` where
-- it fails to come or has another shape.
pub mod Inbound
pub mod Agreement
pub mod Requests
pub mod Events
use lantern_remote.Common.{
  Bool, true, false, not, Option, none, some, Text, String, ◌==◌, List, [], ◌∷◌, ◌++◌, present,
  if◌then◌else◌,
}
use lantern_remote.Value.{Number, Value, string, object, field, end}
use lantern_remote.Shared.DeviceId.{parse_device_id}
use lantern_remote.Shared.ConnectionToken.{is_valid_token_format}
use lantern_remote.Shared.Signaling
use lantern_remote.Shared.Signaling.{
  SignalingErrorCode, ConnectionRejectionReason, SdpType, WebRtcSessionPayload, IceCandidatePayload,
}
use lantern_remote.Server.Handlers.{
  DisconnectReason, timeout, SignalingAck, ok, failed, Attempt, pass, refuse, ◌>>=◌, ◌>>◌,
  or_refuse, unless, webrtc_session, ice_candidate,
}
use lantern_remote.Server.Handlers.Bodies.{rejection_text, body}
use Inbound.{
  IncomingConnectionPayload, ConnectionDecisionPayload, PeerDisconnectedPayload, parse_incoming,
  parse_decision, parse_peer_disconnected, parse_session_payload, parse_ice_payload,
}

-- `socket` holds whether it is connected; `request_timer` whether a timer is pending.
pub record SignalingService : Type 0 where
  pub socket : Option Bool
  pub device_id : Option Text
  pub request_timer : Bool

-- A call of a listener.
pub data Call : Type 0 where
  on_connected on_disconnected : Call
  on_unavailable : SignalingErrorCode → Call
  on_incoming : IncomingConnectionPayload → Call
  on_accepted on_rejected : ConnectionDecisionPayload → Call
  on_peer_disconnected : PeerDisconnectedPayload → Call
  on_offer on_answer : WebRtcSessionPayload → Call
  on_ice_candidate : IceCandidatePayload → Call

-- What the client sends with an acknowledgement.
pub data Request : Type 0 where
  registration_of : (device_id : Text) → Request
  connection_to : (target token : Text) → Request
  accept_room disconnect_room : (room_id : Text) → Request
  reject_room : (room_id : Text) → ConnectionRejectionReason → Request
  send_session : WebRtcSessionPayload → Request
  send_candidate : IceCandidatePayload → Request

unfoldable pub request_body : Request → Value
request_body (registration_of d) = object (field "deviceId" (string d) end)
request_body (connection_to target token) =
    object (field "targetDeviceId" (string target) (field "token" (string token) end))
request_body (accept_room room_id) = object (field "roomId" (string room_id) end)
request_body (disconnect_room room_id) = object (field "roomId" (string room_id) end)
request_body (reject_room room_id reason) =
    object (field "roomId" (string room_id) (field "reason" (string (rejection_text reason)) end))
request_body (send_session p) = body (webrtc_session p)
request_body (send_candidate p) = body (ice_candidate p)

pub data Action : Type 0 where
  call : Call → Action
  open_socket : (url : Text) → Action
  reopen close : Action
  send : Request → Action

abbrev pub is_connected : Option Bool → Bool
is_connected none = false
is_connected (some connected) = connected

abbrev pub clear_request_timer : SignalingService → SignalingService
clear_request_timer s = record s { request_timer = false }

abbrev pub close_if_open : Option Bool → List Action
close_if_open none = []
close_if_open (some connected) = close ∷ []

unfoldable pub disconnect : SignalingService → SignalingService × List Action
disconnect s =
    (record { socket = none; device_id = none; request_timer = false }, close_if_open s.socket)

abbrev pub is_id : Option Text → Text → Bool
is_id none digits = false
is_id (some d) digits = d == digits

-- A new socket, once the old one is gone.
abbrev pub opened : Text → Text → SignalingService → SignalingService × List Action
unfolding disconnect
opened url digits s = (
  record { socket = some false; device_id = some digits; request_timer = false },
  (disconnect s).1 ++ (open_socket url ∷ []),
)

abbrev pub connect_as :
    Text → Text → SignalingService → Option Bool → SignalingService × List Action
connect_as url digits s none = opened url digits s
connect_as url digits s (some connected) =
    if is_id s.device_id digits
    then (s, if connected then [] else reopen ∷ [])
    else opened url digits s

abbrev pub connect_parsed : Text → Option Text → SignalingService → SignalingService × List Action
connect_parsed url none s = (s, call (on_unavailable Signaling.invalid_id) ∷ [])
connect_parsed url (some digits) s = connect_as url digits s s.socket

unfoldable pub connect : Text → Text → SignalingService → SignalingService × List Action
connect url device_id s = connect_parsed url (present (parse_device_id device_id)) s

-- `emitWithAck`
abbrev pub settled_ack : Option SignalingAck → SignalingAck
settled_ack none = failed Signaling.server_unavailable
settled_ack (some ack) = ack

-- What is thrown for an acknowledgement that is not as hoped.
abbrev pub ack_error : SignalingAck → SignalingErrorCode → SignalingErrorCode
ack_error (failed e) fallback = e
ack_error (ok room_id) fallback = fallback

abbrev pub require_socket : SignalingService → Attempt (Unit {0})
require_socket s = unless (not (is_connected s.socket)) Signaling.server_unavailable

unfoldable pub request_connection_begin : Text → Text → SignalingService → Attempt Request
request_connection_begin target token s = do
  require_socket s
  digits ← or_refuse (present (parse_device_id target)) Signaling.invalid_id
  unless (not (is_valid_token_format (string token))) Signaling.invalid_token
  pass (connection_to digits token)

abbrev pub room_of : SignalingAck → Option Text
room_of (ok room_id) = present room_id
room_of (failed e) = none

abbrev pub requested_room :
    SignalingAck → Option Text → SignalingService → SignalingService × Attempt Text
requested_room ack none s = (s, refuse (ack_error ack Signaling.device_offline))
requested_room ack (some room_id) s = (record s { request_timer = true }, pass room_id)

-- The state after the acknowledgement, and the room or what is thrown.
unfoldable pub request_connection_end :
    Option SignalingAck → SignalingService → SignalingService × Attempt Text
request_connection_end reply s = let ack = settled_ack reply in requested_room ack (room_of ack) s

-- `accept`, `reject`, `sendOffer`, `sendAnswer` and `sendIceCandidate` up to the acknowledgement.
unfoldable pub submit : Request → SignalingService → Attempt Request
submit request s = require_socket s >> pass request

-- Their end.
abbrev pub confirm : SignalingAck → Attempt (Unit {0})
confirm (ok room_id) = pass tt
confirm (failed e) = refuse e

unfoldable pub submit_end : Option SignalingAck → Attempt (Unit {0})
submit_end reply = confirm (settled_ack reply)

abbrev pub leave : Bool → Option Text → List Action
leave true (some room_id) = send (disconnect_room room_id) ∷ []
leave _ _ = []

-- Nothing is made of the acknowledgement.
unfoldable pub disconnect_session : Option Text → SignalingService → SignalingService × List Action
disconnect_session room_id s =
    (clear_request_timer s, leave (is_connected s.socket) (present room_id))
