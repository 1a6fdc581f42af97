-- ===== src/Client/Session/Run/Settled.antt =====
-- src/hooks/useSignalingSession.ts: a session that is over leaves no room and no request behind.
use lantern_remote.Common.{[], ◌∷◌, refl, List, ◌≡◌, Bool, true, false, Option, none, arith, Text}
use lantern_remote.Value.{Number, Value}
use lantern_remote.Shared.RemoteInput.{RemoteInputMessage}
use lantern_remote.Client.Store.{ConnectionStatus, idle, disconnected}
use lantern_remote.Client.Session.{Session, List, ◌∷◌}
use lantern_remote.Client.Session.Run.{SessionEvent, step, run}
use lantern_remote.Client.Store.{reset}
use lantern_remote.Client.RemoteInput.{forward_to_host}
use lantern_remote.Client.Session.{
  teardown_session, fail_session, negotiation_timer_fires, negotiation_end, cleaned_up,
}
use lantern_remote.Client.Session.Listeners.{
  on_connection_state, on_local_candidate, on_remote_input_message, on_control_message,
  on_signaling, token_checked,
}
use lantern_remote.Client.Session.Actions.{
  connect_to_remote_begin, connected_to_remote, connect_to_remote_failed, accept_incoming_begin,
  accept_incoming_acked, accept_incoming_end, reject_incoming_begin, reject_incoming_end,
  disconnect_session_begin, disconnect_session_end,
}

-- Nothing is going on.
abbrev pub is_over : ConnectionStatus → Bool
is_over idle = true
is_over disconnected = true
is_over _ = false

abbrev IsSettled : Session → Type 0
IsSettled s = is_over s.store.status ≡ true → (s.store.room_id ≡ none) × (s.store.incoming ≡ none)

module _ (parse_json : Text → Option Value) (round : Number → Number)
    (summarize : RemoteInputMessage → Text) where
  step-IsSettled :
      (e : SessionEvent) (s : Session)
      → IsSettled s
      → IsSettled (step parse_json round summarize e s).0
  unfolding step on_connection_state on_local_candidate on_remote_input_message on_control_message
      on_signaling token_checked negotiation_timer_fires negotiation_end connect_to_remote_begin
      connected_to_remote connect_to_remote_failed accept_incoming_begin accept_incoming_acked
      accept_incoming_end reject_incoming_begin reject_incoming_end disconnect_session_begin
      disconnect_session_end fail_session teardown_session reset forward_to_host cleaned_up
  step-IsSettled e s v = λ h. ground arith

  settled : (events : List SessionEvent) → IsSettled (run parse_json round summarize events)
  unfolding run
  settled [] = λ h. (refl, refl)
  settled (e ∷ past) = step-IsSettled e (run parse_json round summarize past) (settled past)

  -- In every session, whatever the order of its events, a status of idle or disconnected leaves no
  -- room and no request to answer.
  pub run-IsSettled :
      (events : List SessionEvent)
      → is_over (run parse_json round summarize events).store.status ≡ true
      → ((run parse_json round summarize events).store.room_id ≡ none)
        × ((run parse_json round summarize events).store.incoming ≡ none)
  run-IsSettled events h = settled events h
