-- ===== src/Client/Session/Listeners.antt =====
-- src/hooks/useSignalingSession.ts: the events of the peer connection and of the signaling client.
use lantern_remote.Common.{
  ◌+◌, Bool, true, false, not, ◌&&◌, ◌||◌, List, [], ◌∷◌, ◌++◌, Option, none, some, Text, text,
  present, if◌then◌else◌,
}
use lantern_remote.Value.{Number, Value, string}
use lantern_remote.Shared.DeviceId.{format_device_id}
use lantern_remote.Shared.Signaling
use lantern_remote.Shared.Signaling.{SignalingErrorCode, IceCandidatePayload}
use lantern_remote.Shared.Clipboard.{
  ControlMessage, video_tracks_added, video_tracks_ended, parse_control_message,
}
use lantern_remote.Shared.RemoteInput.{
  RemoteInputMessage, mouse_move, mouse_button, mouse_wheel, keyboard, RemoteInputRequest,
  key_event_text, button_event_text, button_text,
}
use lantern_remote.Server.Handlers.{DisconnectReason, timeout}
use lantern_remote.Client.Signaling.Inbound.{IncomingConnectionPayload}
use lantern_remote.Client.Signaling.{
  Call, on_connected, on_disconnected, on_unavailable, on_incoming, on_accepted, on_rejected,
  on_peer_disconnected, on_offer, on_answer, on_ice_candidate,
}
use lantern_remote.Client.Store.{
  ConnectionStatus, idle, waiting_for_approval, negotiating, disconnected, failed, host, RtcState,
  ConnectionState,
}
use lantern_remote.Client.RemoteInput.{forward_to_host}
use lantern_remote.Client.Session.{
  Session, Command, create_offer, accept_offer, accept_answer, add_candidate, send_candidate,
  validate_token, reject_room, apply_input, message, teardown_session, fail_session,
  arm_negotiation_timer, is_room, is_host, is_client,
}

unfoldable pub on_connection_state : RtcState → Session → Session × List Command
on_connection_state state s =
    let seen = record s { store = record s.store { rtc_state = state } } in
    elim state [
      | RtcState.connected ↦ (
        record {
          store = record seen.store { status = ConnectionStatus.connected; error = none };
          negotiation_timer = false;
        },
        [],
      )
      | RtcState.failed ↦ fail_session (message Signaling.ice_failed) seen
      | RtcState.disconnected ↦ teardown_session ConnectionStatus.disconnected none seen
      | RtcState.closed ↦ teardown_session ConnectionStatus.disconnected none seen
      | RtcState.new ↦ (seen, [])
      | RtcState.connecting ↦ (seen, [])
    ]

-- A candidate of the local side, with the room's id still to be filled in.
abbrev pub trickle : Option Text → IceCandidatePayload → List Command
trickle none c = []
trickle (some room_id) c = send_candidate (record c { room_id = room_id }) ∷ []

unfoldable pub on_local_candidate : IceCandidatePayload → Session → Session × List Command
on_local_candidate c s = (s, trickle (present s.store.room_id) c)

-- `toFixed(2)` and the template's rendering of a number are parameters.
module _ (to_fixed show : Number → Text) where
  abbrev pub at_point : Number → Number → Text
  unfolding text
  at_point x y = text " (" ++ (to_fixed x ++ (text ", " ++ (to_fixed y ++ text ")")))

  abbrev pub summarize_input : RemoteInputMessage → Text
  unfolding text
  summarize_input (keyboard event key code) = key_event_text event ++ (text " " ++ code)
  summarize_input (mouse_button event button x y) =
      button_event_text event ++ (text " " ++ (button_text button ++ at_point x y))
  summarize_input (mouse_wheel dx dy x y) =
      text "wheel " ++ ((916 ∷ []) ++ (show dx ++ (text "," ++ (show dy ++ at_point x y))))
  summarize_input (mouse_move x y) = text "move" ++ at_point x y

-- What the host does with a frame that it has forwarded.
abbrev pub applied :
    (RemoteInputMessage → Text) → Session → Option RemoteInputRequest → Session × List Command
applied summarize s none = (s, [])
applied summarize s (some request) = (
  record s { store = record s.store { last_remote_input = some (summarize request.message) } },
  apply_input request ∷ [],
)

unfoldable pub on_remote_input_message :
    (parse_json : Text → Option Value) (round : Number → Number)
    (summarize : RemoteInputMessage → Text) (frame : Text)
    → Session
    → Session × List Command
on_remote_input_message parse_json round summarize frame s =
    if not (is_host s.store.role) || not s.store.sharing
    then (s, [])
    else applied summarize s (forward_to_host parse_json round frame s.store.shared_display_size)

abbrev pub is_connected : ConnectionStatus → Bool
is_connected ConnectionStatus.connected = true
is_connected _ = false

-- A re-offer arms no timer.
abbrev pub reoffer : ConnectionState → Option Text → List Command
reoffer c none = []
reoffer c (some room_id) =
    if is_client c.role && is_connected c.status then create_offer room_id ∷ [] else []

abbrev pub on_control : Option ControlMessage → Session → Session × List Command
on_control none s = (s, [])
on_control (some video_tracks_added) s = (s, reoffer s.store (present s.store.room_id))
on_control (some video_tracks_ended) s =
    if is_client s.store.role
    then (record s { store = record s.store { remote_stream = none } }, [])
    else (s, [])

unfoldable pub on_control_message :
    (parse_json : Text → Option Value) (frame : Text) → Session → Session × List Command
on_control_message parse_json frame s =
    on_control (parse_control_message parse_json (string frame)) s

abbrev pub is_idle : ConnectionStatus → Bool
is_idle idle = true
is_idle _ = false

abbrev pub has_room : Option Text → Bool
has_room none = false
has_room (some room_id) = true

abbrev pub rejection_message : Option Signaling.ConnectionRejectionReason → Text
rejection_message (some Signaling.invalid_token) = message SignalingErrorCode.invalid_token
rejection_message _ = message Signaling.rejected

abbrev pub peer_gone : DisconnectReason → Session → Session × List Command
peer_gone timeout s = teardown_session failed (some (message SignalingErrorCode.timeout)) s
peer_gone _ s = teardown_session disconnected none s

unfoldable pub on_signaling : Call → Session → Session × List Command
on_signaling on_connected s =
    (record s { store = record s.store { signaling_connected = true; error = none } }, [])
on_signaling on_disconnected s =
    let cut = record s { store = record s.store { signaling_connected = false } } in
    if has_room (present s.store.room_id) || not (is_idle s.store.status)
    then teardown_session failed (some (message Signaling.server_unavailable)) cut
    else (cut, [])
on_signaling (on_unavailable e) s = (
  record s { store = record s.store { signaling_connected = false; error = some (message e) } },
  [],
)
on_signaling (on_incoming payload) s = (s, validate_token payload ∷ [])
on_signaling (on_accepted payload) s = (
  arm_negotiation_timer (record s {
    store = record s.store { room_id = some payload.room_id; status = negotiating; error = none };
  }),
  create_offer payload.room_id ∷ [],
)
on_signaling (on_rejected payload) s = (
  record s {
    store = record s.store {
      error = some (rejection_message payload.reason);
      status = failed;
      incoming = none;
      room_id = none;
    };
  },
  [],
)
on_signaling (on_peer_disconnected payload) s = peer_gone payload.reason s
on_signaling (on_offer payload) s =
    if not (is_host s.store.role) || not (is_room s.store.room_id payload.room_id)
    then (s, [])
    else (s, accept_offer payload.room_id payload.sdp ∷ [])
on_signaling (on_answer payload) s =
    if not (is_client s.store.role) || not (is_room s.store.room_id payload.room_id)
    then (s, [])
    else (s, accept_answer payload.sdp ∷ [])
on_signaling (on_ice_candidate payload) s =
    if not (is_room (present s.store.room_id) payload.room_id)
    then (s, [])
    else (s, add_candidate payload ∷ [])

-- The end of `validateConnectionToken`; a failed call counts as false.
unfoldable pub token_checked :
    IncomingConnectionPayload → (valid : Bool) → Session → Session × List Command
token_checked payload false s = (
  record s { store = record s.store { blocked_attempts = s.store.blocked_attempts + 1 } },
  reject_room payload.room_id Signaling.invalid_token ∷ [],
)
token_checked payload true s = (
  record s {
    store = record s.store {
      incoming = some (record {
        room_id = payload.room_id;
        from_device_id = format_device_id payload.from_device_id;
        token = payload.token;
      });
      room_id = some payload.room_id;
      role = some host;
      status = waiting_for_approval;
    };
  },
  [],
)
