-- ===== src/Client/Session/Run.antt =====
-- src/hooks/useSignalingSession.ts: the events of a session, in any order, and where they lead.
pub mod Settled
pub mod Validated
pub mod Teardown
pub mod Stale
use lantern_remote.Common.{Bool, List, [], ◌∷◌, Option, none, some, Text}
use lantern_remote.Value.{Number, Value}
use lantern_remote.Shared.Signaling
use lantern_remote.Shared.Signaling.{SignalingErrorCode, IceCandidatePayload}
use lantern_remote.Shared.RemoteInput.{RemoteInputMessage}
use lantern_remote.Client.Signaling.Inbound.{IncomingConnectionPayload}
use lantern_remote.Client.Signaling.{Call}
use lantern_remote.Client.Store.{IncomingRequest, RtcState, IceState}
use lantern_remote.Client.Session.{
  Session, no_session, Command, send_offer, send_answer, clipboard_frame, negotiation_timer_fires,
  Ending, negotiation_end, cleaned_up,
}
use lantern_remote.Client.Session.Listeners.{
  on_connection_state, on_local_candidate, on_remote_input_message, on_control_message,
  on_signaling, token_checked,
}
use lantern_remote.Client.Session.Actions.{
  connect_to_remote_begin, connected_to_remote, connect_to_remote_failed, accept_incoming_begin,
  accept_incoming_acked, accept_incoming_end, reject_incoming_begin, reject_incoming_end,
  disconnect_session_begin, disconnect_session_end,
}

pub data SessionEvent : Type 0 where
  connection_state : RtcState → SessionEvent
  ice_state : IceState → SessionEvent
  local_candidate : IceCandidatePayload → SessionEvent
  remote_stream : (stream : Text) → SessionEvent
  input_message clipboard_message control_message : (frame : Text) → SessionEvent
  signaling : Call → SessionEvent
  token_check : IncomingConnectionPayload → (valid : Bool) → SessionEvent
  negotiation_timeout : SessionEvent
  offer_created answer_created : (room_id sdp : Text) → SessionEvent
  negotiation_ended : SignalingErrorCode → Ending → SessionEvent
  connect_begin accept_begin : SessionEvent
  connect_granted : (target room_id : Text) → SessionEvent
  connect_failed : (target : Text) (error : Option Text) → SessionEvent
  accept_acked : IncomingRequest → Ending → SessionEvent
  accept_end : IncomingRequest → SessionEvent
  reject_begin reject_end disconnect_begin disconnect_end : SessionEvent
  remote_id_typed token_typed : Text → SessionEvent
  -- The clean-up of the effect, when a setting has changed or the component goes.
  effect_cleaned : SessionEvent

module _ (parse_json : Text → Option Value) (round : Number → Number)
    (summarize : RemoteInputMessage → Text) where
  unfoldable pub step : SessionEvent → Session → Session × List Command
  step (connection_state state) s = on_connection_state state s
  step (ice_state state) s = (record s { store = record s.store { ice_state = state } }, [])
  step (local_candidate c) s = on_local_candidate c s
  step (remote_stream stream) s =
      (record s { store = record s.store { remote_stream = some stream } }, [])
  step (input_message frame) s = on_remote_input_message parse_json round summarize frame s
  step (clipboard_message frame) s = (s, clipboard_frame frame ∷ [])
  step (control_message frame) s = on_control_message parse_json frame s
  step (signaling c) s = on_signaling c s
  step (token_check payload valid) s = token_checked payload valid s
  step negotiation_timeout s = negotiation_timer_fires s
  step (offer_created room_id sdp) s = (s, send_offer room_id sdp ∷ [])
  step (answer_created room_id sdp) s = (s, send_answer room_id sdp ∷ [])
  step (negotiation_ended fallback ending) s = negotiation_end fallback ending s
  step connect_begin s = connect_to_remote_begin s
  step (connect_granted target room_id) s = connected_to_remote target room_id s
  step (connect_failed target error) s = connect_to_remote_failed target error s
  step accept_begin s = accept_incoming_begin s
  step (accept_acked incoming ending) s = accept_incoming_acked incoming ending s
  step (accept_end incoming) s = accept_incoming_end incoming s
  step reject_begin s = reject_incoming_begin s
  step reject_end s = reject_incoming_end s
  step disconnect_begin s = disconnect_session_begin s
  step disconnect_end s = disconnect_session_end s
  step (remote_id_typed t) s = (record s { store = record s.store { remote_id = t } }, [])
  step (token_typed t) s = (record s { store = record s.store { token_input = t } }, [])
  step effect_cleaned s = cleaned_up s

  -- The session after the events of a list, the last one first.
  unfoldable pub run : List SessionEvent → Session
  run [] = no_session
  run (e ∷ past) = (step e (run past)).0
