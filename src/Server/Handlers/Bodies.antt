-- ===== src/Server/Handlers/Bodies.antt =====
-- server/socket/handlers.ts and server/index.ts: the object that goes with each emitted message.
use lantern_remote.Common.{Option, none, some, Text, text}
use lantern_remote.Value.{Number, Value, null, string, number, object, field, end}
use lantern_remote.Shared.Signaling
use lantern_remote.Shared.Signaling.{
  ConnectionRejectionReason, declined_text, invalid_token_text, sdp_type_text, WebRtcSessionPayload,
  IceCandidatePayload,
}
use lantern_remote.Server.Handlers.{
  DisconnectReason, left, offline, timeout, rejected, Message, device_online, device_offline,
  incoming_connection, connection_accepted, connection_rejected, peer_disconnected, webrtc_session,
  ice_candidate,
}

abbrev pub reason_text : DisconnectReason → Text
unfolding text
reason_text left = text "left"
reason_text offline = text "offline"
reason_text timeout = text "timeout"
reason_text rejected = text "rejected"

abbrev pub rejection_text : ConnectionRejectionReason → Text
rejection_text Signaling.declined = declined_text
rejection_text Signaling.invalid_token = invalid_token_text

abbrev pub or_null : Option Text → Value
or_null none = null
or_null (some t) = string t

abbrev pub number_or_null : Option Number → Value
number_or_null none = null
number_or_null (some n) = number n

-- The second argument of `emit`.
unfoldable pub body : Message → Value
body (device_online d) = object (field "deviceId" (string d) end)
body (device_offline d) = object (field "deviceId" (string d) end)
body (incoming_connection room_id from_id token) = object (
    field "roomId" (string room_id)
      (field "fromDeviceId" (string from_id) (field "token" (string token) end)))
body (connection_accepted room_id host) =
    object (field "roomId" (string room_id) (field "hostDeviceId" (string host) end))
body (connection_rejected room_id host reason) = object (
    field "roomId" (string room_id)
      (field "hostDeviceId" (string host) (field "reason" (string (rejection_text reason)) end)))
body (peer_disconnected room_id reason) =
    object (field "roomId" (string room_id) (field "reason" (string (reason_text reason)) end))
body (webrtc_session p) = object (
    field "roomId" (string p.room_id)
      (field "sdp" (string p.sdp) (field "type" (string (sdp_type_text p.kind)) end)))
body (ice_candidate p) = object (
    field "roomId" (string p.room_id) (
      field "candidate" (string p.candidate) (
        field "sdpMid" (or_null p.sdp_mid)
          (field "sdpMLineIndex" (number_or_null p.sdp_m_line_index) end))))
