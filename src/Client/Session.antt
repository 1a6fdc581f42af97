-- ===== src/Client/Session.antt =====
-- src/hooks/useSignalingSession.ts: the session over the connection store. A function that awaits is
-- one step before and one after; what it calls is its list of commands. Teardown comes with
-- src/hooks/useScreenShare.ts (stopLocalCapture).
pub mod Listeners
pub mod Actions
pub mod Run
pub mod Mount
use lantern_remote.Common.{
  Bool, true, false, List, [], ◌∷◌, ◌++◌, ◌==◌, Option, none, some, Text, text, if◌then◌else◌,
}
use lantern_remote.Shared.Signaling
use lantern_remote.Shared.Signaling.{
  SignalingErrorCode, signaling_error_messages, ConnectionRejectionReason, IceCandidatePayload,
}
use lantern_remote.Shared.RemoteInput.{RemoteInputRequest}
use lantern_remote.Client.Signaling.Inbound.{IncomingConnectionPayload}
use lantern_remote.Client.Store.{
  ConnectionStatus, idle, connecting, waiting_for_approval, approved, negotiating, connected,
  disconnected, failed, SessionRole, client, host, ConnectionState, initial, reset,
}

-- The store, and whether the negotiation timer is pending.
pub record Session : Type 0 where
  pub store : ConnectionState
  pub negotiation_timer : Bool

abbrev pub no_session : Session
no_session = record { store = initial; negotiation_timer = false }

-- The calls of services and of the main process.
pub data Command : Type 0 where
  stop_stream : (stream : Option Text) → Command
  remove_local_stream revoke_token consume_token close_peer : Command
  release_room : (room_id : Option Text) → Command
  create_offer : (room_id : Text) → Command
  accept_offer : (room_id sdp : Text) → Command
  accept_answer : (sdp : Text) → Command
  send_offer send_answer : (room_id sdp : Text) → Command
  add_candidate : IceCandidatePayload → Command
  send_candidate : IceCandidatePayload → Command
  validate_token : IncomingConnectionPayload → Command
  request_connection : (target token : Text) → Command
  accept_room : (room_id : Text) → Command
  reject_room : (room_id : Text) → ConnectionRejectionReason → Command
  apply_input : RemoteInputRequest → Command
  clipboard_frame : Text → Command
  add_history : (device_id : Text) → SessionRole → (success : Bool) → Command

unfoldable pub message : SignalingErrorCode → Text
unfolding text
message e = text (signaling_error_messages e)

-- `stopLocalCapture`
abbrev pub capture_stopped : ConnectionState → ConnectionState
capture_stopped c = record c {
  local_stream = none;
  sharing = false;
  shared_display_size = none;
  last_remote_input = none;
}

abbrev pub stop_capture : ConnectionState → List Command
stop_capture c = stop_stream c.local_stream ∷ remove_local_stream ∷ []

unfoldable pub teardown_session : ConnectionStatus → Option Text → Session → Session × List Command
unfolding reset
teardown_session status error s = (
  record {
    store = record (reset (capture_stopped s.store)) { status = status; error = error };
    negotiation_timer = false;
  },
  stop_capture s.store ++ (revoke_token ∷ close_peer ∷ release_room s.store.room_id ∷ []),
)

unfoldable pub fail_session : Text → Session → Session × List Command
unfolding teardown_session
fail_session error s = teardown_session failed (some error) s

abbrev pub arm_negotiation_timer : Session → Session
arm_negotiation_timer s = record s { negotiation_timer = true }

-- What the clean-up of the effect does to the session: the store stays as it is.
unfoldable pub cleaned_up : Session → Session × List Command
cleaned_up s = (record s { negotiation_timer = false }, close_peer ∷ [])

abbrev pub is_negotiating : ConnectionStatus → Bool
is_negotiating negotiating = true
is_negotiating _ = false

-- The callback of the timer.
unfoldable pub negotiation_timer_fires : Session → Session × List Command
unfolding fail_session
negotiation_timer_fires s =
    let fired = record s { negotiation_timer = false } in
    if is_negotiating s.store.status
    then fail_session (message Signaling.negotiation_timeout) fired
    else (fired, [])

abbrev pub is_room : Option Text → Text → Bool
is_room none room_id = false
is_room (some id) room_id = id == room_id

abbrev pub is_host : Option SessionRole → Bool
is_host (some host) = true
is_host _ = false

abbrev pub is_client : Option SessionRole → Bool
is_client (some client) = true
is_client _ = false

-- `error instanceof Error ? error.message : SIGNALING_ERROR_MESSAGES[fallback]`
abbrev pub error_message : Option Text → SignalingErrorCode → Text
error_message none fallback = message fallback
error_message (some m) fallback = m

-- The end of `createAndSendOffer` and of `answerOffer`, and of a re-offer or an answer, where only
-- the fallback differs: what was thrown, if anything was.
pub data Ending : Type 0 where
  returned : Ending
  thrown : (error : Option Text) → Ending

unfoldable pub negotiation_end : SignalingErrorCode → Ending → Session → Session × List Command
negotiation_end fallback returned s = (s, [])
negotiation_end fallback (thrown error) s = fail_session (error_message error fallback) s
