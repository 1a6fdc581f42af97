-- ===== src/Client/Signaling/Inbound.antt =====
-- src/services/SignalingService.ts: the validators of what the server sends.
use lantern_remote.Common.{
  not, ◌||◌, Option, none, some, Text, ltb, eqb, ◌==◌, length, present, ◌>>=◌, ◌>>◌, guard,
  if◌then◌else◌,
}
use lantern_remote.Value.{Value, undefined, string, read}
use lantern_remote.Shared.DeviceId.{parse_device_id}
use lantern_remote.Shared.ConnectionToken.{is_valid_token_format}
use lantern_remote.Shared.Signaling
use lantern_remote.Shared.Signaling.{
  ConnectionRejectionReason, SdpType, WebRtcSessionPayload, IceCandidatePayload, max_sdp_length,
  max_ice_candidate_length, as_record, read_string, declined_text, invalid_token_text, is_text,
  sdp_type_text, sdp_mid_of, line_index_of,
}
use lantern_remote.Server.Handlers.{DisconnectReason, left, offline, timeout, rejected}
use lantern_remote.Server.Handlers.Bodies.{reason_text}

pub record IncomingConnectionPayload : Type 0 where
  pub room_id : Text
  pub from_device_id : Text
  pub token : Text

-- An absent `reason` is `none`.
pub record ConnectionDecisionPayload : Type 0 where
  pub room_id : Text
  pub host_device_id : Text
  pub reason : Option ConnectionRejectionReason

pub record PeerDisconnectedPayload : Type 0 where
  pub room_id : Text
  pub reason : DisconnectReason

unfoldable pub parse_incoming : Value → Option IncomingConnectionPayload
parse_incoming value = do
  fs ← as_record value
  room_id ← read_string fs "roomId"
  raw ← read_string fs "fromDeviceId"
  from_id ← present (parse_device_id raw)
  guard (is_valid_token_format (read "token" fs))
  token ← read_string fs "token"
  some (record { room_id = room_id; from_device_id = from_id; token = token })

-- The three values that `reason` may have.
unfoldable pub decision_reason : Value → Option (Option ConnectionRejectionReason)
decision_reason undefined = some none
decision_reason (string s) =
    if s == declined_text
    then some (some Signaling.declined)
    else (if s == invalid_token_text then some (some Signaling.invalid_token) else none)
decision_reason _ = none

unfoldable pub parse_decision : Value → Option ConnectionDecisionPayload
parse_decision value = do
  fs ← as_record value
  room_id ← read_string fs "roomId"
  raw ← read_string fs "hostDeviceId"
  host_id ← present (parse_device_id raw)
  reason ← decision_reason (read "reason" fs)
  some (record { room_id = room_id; host_device_id = host_id; reason = reason })

unfoldable pub disconnect_reason : Value → Option DisconnectReason
disconnect_reason (string s) =
    if s == reason_text left
    then some left
    else (if s == reason_text offline
        then some offline
        else (if s == reason_text timeout
            then some timeout
            else (if s == reason_text rejected then some rejected else none)))
disconnect_reason _ = none

unfoldable pub parse_peer_disconnected : Value → Option PeerDisconnectedPayload
parse_peer_disconnected value = do
  fs ← as_record value
  room_id ← read_string fs "roomId"
  reason ← disconnect_reason (read "reason" fs)
  some (record { room_id = room_id; reason = reason })

-- Unlike the server's validator of the same name, it leaves the length of the room's id open.
unfoldable pub parse_session_payload : Value → SdpType → Option WebRtcSessionPayload
parse_session_payload value expected = do
  fs ← as_record value
  room_id ← read_string fs "roomId"
  sdp ← read_string fs "sdp"
  guard (not (eqb (length sdp) 0 || ltb max_sdp_length (length sdp)))
  guard (is_text (read "type" fs) (sdp_type_text expected))
  some (record { room_id = room_id; sdp = sdp; kind = expected })

unfoldable pub parse_ice_payload : Value → Option IceCandidatePayload
parse_ice_payload value = do
  fs ← as_record value
  room_id ← read_string fs "roomId"
  candidate ← read_string fs "candidate"
  guard (not (eqb (length candidate) 0 || ltb max_ice_candidate_length (length candidate)))
  mid ← sdp_mid_of (read "sdpMid" fs)
  index ← line_index_of (read "sdpMLineIndex" fs)
  some
      (record { room_id = room_id; candidate = candidate; sdp_mid = mid; sdp_m_line_index = index })
