-- ===== src/Client/Session/Run/Teardown.antt =====
-- src/hooks/useSignalingSession.ts and src/hooks/useScreenShare.ts: the end of a session.
use lantern_remote.Common.{
  ◌≡◌, ◌⊎◌, inl, inr, refl, Bool, true, false, List, [], ◌∷◌, Option, none, some, arith, Text,
}
use lantern_remote.Value.{Number, Value}
use lantern_remote.Shared.RemoteInput.{RemoteInputMessage, RemoteInputRequest}
use lantern_remote.Client.Store.{ConnectionState, host}
use lantern_remote.Client.Session.{
  Session, Command, stop_stream, remove_local_stream, close_peer, apply_input,
}
use lantern_remote.Client.Session.Run.{SessionEvent, step, effect_cleaned}
use lantern_remote.Client.Store.{reset}
use lantern_remote.Client.RemoteInput.{forward_to_host, frame_message}
use lantern_remote.Client.Session.{
  teardown_session, fail_session, negotiation_timer_fires, negotiation_end, cleaned_up,
}
use lantern_remote.Client.Session.Listeners.{
  on_connection_state, on_local_candidate, on_remote_input_message, on_control_message,
  on_signaling, token_checked,
}
use lantern_remote.Client.Session.Actions.{
  connect_to_remote_begin, connected_to_remote, connect_to_remote_failed, accept_incoming_begin,
  accept_incoming_acked, accept_incoming_end, reject_incoming_begin, reject_incoming_end,
  disconnect_session_begin, disconnect_session_end,
}
use lantern_remote.Client.Session.Run.{input_message}

abbrev pub closes_peer : List Command → Bool
closes_peer [] = false
closes_peer (close_peer ∷ rest) = true
closes_peer (_ ∷ rest) = closes_peer rest

-- The stream that is stopped, and whose tracks are taken off the connection, before anything else.
abbrev pub stopped : List Command → Option (Option Text)
stopped (stop_stream o ∷ (remove_local_stream ∷ rest)) = some o
stopped _ = none

-- Nothing is captured.
abbrev pub IsQuiet : ConnectionState → Type 0
IsQuiet c = (c.sharing ≡ false) × (c.local_stream ≡ none) × (c.shared_display_size ≡ none)

module _ (parse_json : Text → Option Value) (round : Number → Number)
    (summarize : RemoteInputMessage → Text) where
  -- Whatever event closes the peer connection clears the negotiation timer, and either it is the
  -- clean-up of the effect, which leaves the store as it is, or it also stops the screen stream that
  -- was captured, and marks it as no longer shared.
  pub closes_peer-IsQuiet :
      (e : SessionEvent) (s : Session)
      → let (s', commands) = step parse_json round summarize e s in
        closes_peer commands ≡ true
        → (s'.negotiation_timer ≡ false)
          × (((e ≡ effect_cleaned) × (s'.store ≡ s.store))
              ⊎ ((stopped commands ≡ some s.store.local_stream) × IsQuiet s'.store))
  unfolding step on_connection_state on_local_candidate on_remote_input_message on_control_message
      on_signaling token_checked negotiation_timer_fires negotiation_end connect_to_remote_begin
      connected_to_remote connect_to_remote_failed accept_incoming_begin accept_incoming_acked
      accept_incoming_end reject_incoming_begin reject_incoming_end disconnect_session_begin
      disconnect_session_end fail_session teardown_session reset forward_to_host cleaned_up
  closes_peer-IsQuiet effect_cleaned s h = (refl, inl (refl, refl))
  closes_peer-IsQuiet e s h = (ground arith, inr (ground arith))

  -- Input reaches the main process only from a frame of the input channel, on a host that is
  -- sharing, and only as a message that the validator has let through.
  pub apply_input-IsGated :
      (e : SessionEvent) (s : Session) (request : RemoteInputRequest)
      → (step parse_json round summarize e s).1 ≡ apply_input request ∷ []
      → (frame : Text) × (e ≡ input_message frame)
        × (s.store.role ≡ some host)
        × (s.store.sharing ≡ true)
        × (frame_message (parse_json frame) ≡ some request.message)
  unfolding step on_connection_state on_local_candidate on_remote_input_message on_control_message
      on_signaling token_checked negotiation_timer_fires negotiation_end connect_to_remote_begin
      connected_to_remote connect_to_remote_failed accept_incoming_begin accept_incoming_acked
      accept_incoming_end reject_incoming_begin reject_incoming_end disconnect_session_begin
      disconnect_session_end fail_session teardown_session reset forward_to_host cleaned_up
  apply_input-IsGated (input_message frame) s request h =
      (frame, refl, ground arith, ground arith, ground arith)
  apply_input-IsGated e s request h = absurd (ground arith)
