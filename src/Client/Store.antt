-- ===== src/Client/Store.antt =====
-- src/stores/connectionStore.ts. The setters are record updates where they are called. A media
-- stream is named by a text.
use lantern_remote.Common.{ℕ, Bool, false, [], Option, none, Text}
use lantern_remote.Value.{Number}

pub data ConnectionStatus : Type 0 where
  idle connecting waiting_for_approval approved : ConnectionStatus
  negotiating connected disconnected failed : ConnectionStatus

pub record IncomingRequest : Type 0 where
  pub room_id : Text
  pub from_device_id : Text
  pub token : Text

pub data SessionRole : Type 0 where
  client host : SessionRole

pub data RtcState : Type 0 where
  new connecting connected disconnected failed closed : RtcState

pub data IceState : Type 0 where
  new checking connected completed disconnected failed closed : IceState

pub record DisplaySize : Type 0 where
  pub width : Number
  pub height : Number

pub record ConnectionState : Type 0 where
  pub status : ConnectionStatus
  pub remote_id : Text
  pub error : Option Text
  pub room_id : Option Text
  pub incoming : Option IncomingRequest
  pub signaling_connected : Bool
  pub role : Option SessionRole
  pub rtc_state : RtcState
  pub ice_state : IceState
  pub sharing : Bool
  pub local_stream : Option Text
  pub remote_stream : Option Text
  pub fullscreen : Bool
  pub shared_display_size : Option DisplaySize
  pub input_supported : Bool
  pub input_unavailable_reason : Option Text
  pub last_remote_input : Option Text
  pub token_input : Text
  pub token_code : Option Text
  pub token_expires_at : Option ℕ
  pub blocked_attempts : ℕ
  pub clipboard_sent : ℕ
  pub clipboard_received : ℕ

abbrev pub initial : ConnectionState
initial = record {
  status = ConnectionStatus.idle;
  remote_id = [];
  error = none;
  room_id = none;
  incoming = none;
  signaling_connected = false;
  role = none;
  rtc_state = RtcState.new;
  ice_state = IceState.new;
  sharing = false;
  local_stream = none;
  remote_stream = none;
  fullscreen = false;
  shared_display_size = none;
  input_supported = false;
  input_unavailable_reason = none;
  last_remote_input = none;
  token_input = [];
  token_code = none;
  token_expires_at = none;
  blocked_attempts = 0;
  clipboard_sent = 0;
  clipboard_received = 0;
}

-- What the user has typed, and the link to the server, stay.
unfoldable pub reset : ConnectionState → ConnectionState
reset c = record c {
  status = ConnectionStatus.idle;
  error = none;
  room_id = none;
  incoming = none;
  role = none;
  rtc_state = RtcState.new;
  ice_state = IceState.new;
  sharing = false;
  local_stream = none;
  remote_stream = none;
  fullscreen = false;
  shared_display_size = none;
  input_supported = false;
  input_unavailable_reason = none;
  last_remote_input = none;
  token_code = none;
  token_expires_at = none;
  blocked_attempts = 0;
  clipboard_sent = 0;
  clipboard_received = 0;
}
