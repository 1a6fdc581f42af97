-- ===== src/Client/Session/Run/Validated.antt =====
-- src/hooks/useSignalingSession.ts: what the host may be asked, and what it lets in.
use lantern_remote.Common.{
  ◌==◌, ◌||◌, Option-cases, ◌≡◌, inl, inr, Bool, true, false, ◌&&◌, List, [], ◌∷◌, Option, some,
  arith, Text,
}
use lantern_remote.Value.{Number, Value}
use lantern_remote.Shared.RemoteInput.{RemoteInputMessage}
use lantern_remote.Client.Store.{IncomingRequest}
use lantern_remote.Client.Session.{Session, accept_room}
use lantern_remote.Client.Session.Run.{SessionEvent, step, run}
use lantern_remote.Client.Store.{reset}
use lantern_remote.Client.RemoteInput.{forward_to_host}
use lantern_remote.Client.Session.{
  teardown_session, fail_session, negotiation_timer_fires, negotiation_end, cleaned_up,
}
use lantern_remote.Client.Session.Listeners.{
  on_connection_state, on_local_candidate, on_remote_input_message, on_control_message,
  on_signaling, token_checked,
}
use lantern_remote.Client.Session.Actions.{
  connect_to_remote_begin, connected_to_remote, connect_to_remote_failed, accept_incoming_begin,
  accept_incoming_acked, accept_incoming_end, reject_incoming_begin, reject_incoming_end,
  disconnect_session_begin, disconnect_session_end,
}
use lantern_remote.Client.Session.Run.{token_check}

-- The main process has found the code of this request valid.
abbrev pub is_check : IncomingRequest → SessionEvent → Bool
is_check q (token_check payload true) = payload.room_id == q.room_id && payload.token == q.token
is_check q _ = false

abbrev pub is_checked : IncomingRequest → List SessionEvent → Bool
is_checked q [] = false
is_checked q (e ∷ past) = is_check q e || is_checked q past

module _ (parse_json : Text → Option Value) (round : Number → Number)
    (summarize : RemoteInputMessage → Text) where
  step-IsChecked :
      (e : SessionEvent) (s : Session) (past : List SessionEvent)
      → ((q : IncomingRequest) → s.store.incoming ≡ some q → is_checked q past ≡ true)
      → (q : IncomingRequest) → (step parse_json round summarize e s).0.store.incoming ≡ some q
      → is_checked q (e ∷ past) ≡ true
  unfolding step on_connection_state on_local_candidate on_remote_input_message on_control_message
      on_signaling token_checked negotiation_timer_fires negotiation_end connect_to_remote_begin
      connected_to_remote connect_to_remote_failed accept_incoming_begin accept_incoming_acked
      accept_incoming_end reject_incoming_begin reject_incoming_end disconnect_session_begin
      disconnect_session_end fail_session teardown_session reset forward_to_host cleaned_up
  step-IsChecked e s past v q h = ground (arith, v q)

  -- In every session, whatever the order of its events, the request that the host is shown carries
  -- a code that the main process has found valid.
  pub run-IsChecked :
      (events : List SessionEvent) (q : IncomingRequest)
      → (run parse_json round summarize events).store.incoming ≡ some q
      → is_checked q events ≡ true
  unfolding run
  run-IsChecked [] q h = absurd (cc)
  run-IsChecked (e ∷ past) q h =
      step-IsChecked e (run parse_json round summarize past) past (run-IsChecked past) q h

  pub accepts_shown :
      (e : SessionEvent) (s : Session) (room_id : Text)
      → (step parse_json round summarize e s).1 ≡ accept_room room_id ∷ []
      → (q : IncomingRequest) × (s.store.incoming ≡ some q) × (q.room_id ≡ room_id)
  unfolding step on_connection_state on_local_candidate on_remote_input_message on_control_message
      on_signaling token_checked negotiation_timer_fires negotiation_end connect_to_remote_begin
      connected_to_remote connect_to_remote_failed accept_incoming_begin accept_incoming_acked
      accept_incoming_end reject_incoming_begin reject_incoming_end disconnect_session_begin
      disconnect_session_end fail_session teardown_session reset forward_to_host cleaned_up
  accepts_shown e s room_id h = elim (Option-cases s.store.incoming) [
    | inl none_shown ↦ absurd (ground arith)
    | inr (q, shown) ↦ (q, shown, ground arith)
  ]

  -- In every session, the host's client accepts a room only for a request whose code the main
  -- process has found valid.
  pub accepts-IsChecked :
      (past : List SessionEvent) (e : SessionEvent) (room_id : Text)
      → (step parse_json round summarize e (run parse_json round summarize past)).1
        ≡ accept_room room_id ∷ []
      → (q : IncomingRequest) × (q.room_id ≡ room_id) × (is_checked q past ≡ true)
  accepts-IsChecked past e room_id h =
      let (q, shown, same) = accepts_shown e (run parse_json round summarize past) room_id h in
      (q, same, run-IsChecked past q shown)
