-- ===== src/Shared/Signaling.antt =====
-- shared/signaling.ts: error codes, payloads and the validators of the server.

pub mod Accepts
use lantern_remote.Common.{
  ℕ, Bool, false, not, ◌||◌, Option, none, some, String, Text, text, ltb, ◌==◌, length, present,
  ◌>>=◌, ◌>>◌, guard, if◌then◌else◌,
}
use lantern_remote.Value.{
  Number, Value, undefined, null, string, number, object, Fields, read, as_string, is_finite,
  is_integer, lt_zero,
}
use lantern_remote.Shared.DeviceId.{parse_device_id}
use lantern_remote.Shared.ConnectionToken.{is_valid_token_format}

pub data SignalingErrorCode : Type 0 where
  server_unavailable invalid_id device_offline rejected timeout : SignalingErrorCode
  self_connect unauthorized room_not_found already_in_session : SignalingErrorCode
  not_registered negotiation_timeout ice_failed invalid_token : SignalingErrorCode

abbrev pub signaling_error_messages : SignalingErrorCode → String
signaling_error_messages server_unavailable =
    "Signaling server is unavailable. Start it with npm run server and check the URL."
signaling_error_messages invalid_id =
    "That device ID is not valid. Use nine digits, like 482 913 742."
signaling_error_messages device_offline = "That device is offline."
signaling_error_messages rejected = "The host declined this connection."
signaling_error_messages timeout = "The host did not respond in time."
signaling_error_messages self_connect = "You cannot connect to this device."
signaling_error_messages unauthorized = "You are not allowed to act on this connection."
signaling_error_messages room_not_found = "That connection is no longer available."
signaling_error_messages already_in_session = "A connection request is already in progress."
signaling_error_messages not_registered = "This device is not registered with the signaling server."
signaling_error_messages negotiation_timeout =
    "The peer did not complete WebRTC negotiation in time."
signaling_error_messages ice_failed = "Could not establish a direct peer connection (ICE failed)."
signaling_error_messages invalid_token =
    "Incorrect or expired connection code. Ask the host for a fresh one."

pub record ConnectionRequestPayload : Type 0 where
  pub target_device_id : Text
  pub token : Text

pub data ConnectionRejectionReason : Type 0 where
  declined invalid_token : ConnectionRejectionReason

pub record RejectionPayload : Type 0 where
  pub room_id : Text
  pub reason : ConnectionRejectionReason

pub data SdpType : Type 0 where
  offer answer : SdpType

pub record WebRtcSessionPayload : Type 0 where
  pub room_id : Text
  pub sdp : Text
  pub kind : SdpType

-- `none` is `null`.
pub record IceCandidatePayload : Type 0 where
  pub room_id : Text
  pub candidate : Text
  pub sdp_mid : Option Text
  pub sdp_m_line_index : Option Number

abbrev pub connection_request_timeout_ms : ℕ
connection_request_timeout_ms = 30000

abbrev pub pending_room_ttl_ms : ℕ
pending_room_ttl_ms = 35000

abbrev pub negotiation_timeout_ms : ℕ
negotiation_timeout_ms = 20000

abbrev pub max_sdp_length : ℕ
max_sdp_length = 32768

abbrev pub max_ice_candidate_length : ℕ
max_ice_candidate_length = 4096

abbrev pub as_record : Value → Option Fields
as_record (object fs) = some fs
as_record _ = none

abbrev pub read_string : Fields → String → Option Text
read_string fs key = as_string (read key fs)

unfoldable pub parse_register_device_payload : Value → Option Text
parse_register_device_payload value = do
  fs ← as_record value
  raw ← present (read_string fs "deviceId")
  present (parse_device_id raw)

unfoldable pub parse_connection_request_payload : Value → Option ConnectionRequestPayload
parse_connection_request_payload value = do
  fs ← as_record value
  raw ← present (read_string fs "targetDeviceId")
  target ← present (parse_device_id raw)
  token ← present (read_string fs "token")
  guard (is_valid_token_format (string token))
  some (record { target_device_id = target; token = token })

-- The room's id.
unfoldable pub parse_room_action_payload : Value → Option Text
parse_room_action_payload value = do
  fs ← as_record value
  room_id ← present (read_string fs "roomId")
  guard (not (ltb (length room_id) 8 || ltb 80 (length room_id)))
  some room_id

abbrev pub declined_text : Text
unfolding text
declined_text = text "declined"

abbrev pub invalid_token_text : Text
unfolding text
invalid_token_text = text "invalid-token"

-- The value of `reason`: absent means declined, else it must be in `REJECTION_REASONS`.
unfoldable pub rejection_reason : Value → Option ConnectionRejectionReason
rejection_reason undefined = some declined
rejection_reason (string s) =
    if s == declined_text
    then some declined
    else (if s == invalid_token_text then some invalid_token else none)
rejection_reason _ = none

unfoldable pub parse_rejection_payload : Value → Option RejectionPayload
parse_rejection_payload value = do
  room_id ← parse_room_action_payload value
  fs ← as_record value
  reason ← rejection_reason (read "reason" fs)
  some (record { room_id = room_id; reason = reason })

abbrev pub sdp_type_text : SdpType → Text
unfolding text
sdp_type_text offer = text "offer"
sdp_type_text answer = text "answer"

-- `value === literal` for a value of type `unknown`
abbrev pub is_text : Value → Text → Bool
is_text (string s) t = s == t
is_text _ t = false

unfoldable pub parse_session_payload : Value → SdpType → Option WebRtcSessionPayload
parse_session_payload value expected = do
  fs ← as_record value
  room_id ← parse_room_action_payload value
  sdp ← present (read_string fs "sdp")
  guard (not (ltb max_sdp_length (length sdp)))
  guard (is_text (read "type" fs) (sdp_type_text expected))
  some (record { room_id = room_id; sdp = sdp; kind = expected })

-- `null` or a string
unfoldable pub sdp_mid_of : Value → Option (Option Text)
sdp_mid_of null = some none
sdp_mid_of (string s) = some (some s)
sdp_mid_of _ = none

-- `null` or a finite integer that is not negative
unfoldable pub line_index_of : Value → Option (Option Number)
line_index_of null = some none
line_index_of (number n) =
    if not (is_finite n) || (not (is_integer n) || lt_zero n) then none else some (some n)
line_index_of _ = none

unfoldable pub parse_ice_candidate_payload : Value → Option IceCandidatePayload
parse_ice_candidate_payload value = do
  fs ← as_record value
  room_id ← parse_room_action_payload value
  candidate ← present (read_string fs "candidate")
  guard (not (ltb max_ice_candidate_length (length candidate)))
  mid ← sdp_mid_of (read "sdpMid" fs)
  index ← line_index_of (read "sdpMLineIndex" fs)
  some
      (record { room_id = room_id; candidate = candidate; sdp_mid = mid; sdp_m_line_index = index })
