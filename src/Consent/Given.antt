-- ===== src/Consent/Given.antt =====
-- No room is accepted for the window without its user's consent.
use lantern_remote.Dict.{get}
use lantern_remote.Client.Session.Run.Validated.{accepts_shown, run-IsChecked}
use lantern_remote.Consent.{
  Asked, here, there, Sends, Joint, starts, acts, stranger, sends, sweeps, Consented, given,
  earlier,
}
use lantern_remote.Server.Rooms.{ConnectionRoom, accepted, get_room, admitted}
use lantern_remote.Server.Rooms.Expiry.{survivor, get_room-expire_pending}
use lantern_remote.Server.Handlers.{Runtime, SignalingServer, started}
use lantern_remote.Server.Handlers.Step.{
  Event, connection_accepted_event, sweep, Reachable, start, event, swept,
}
use lantern_remote.Server.Handlers.Step.Move.{Move, keeps, opens, admits, closes, Accepts}
use lantern_remote.Server.Handlers.Step.Lifecycle.{step-Move}
use lantern_remote.Server.Handlers.Step.Safety.{Reachable-IsSound}
use lantern_remote.Common.{
  ◌≡◌, [], ◌∷◌, Option, some, Text, arith, List, subst, sym, inl, ◌∙◌, ℕ, ◌⊎◌, inr, ◌≢◌,
}
use lantern_remote.Value.{Number, Value, read}
use lantern_remote.Shared.RemoteInput.{RemoteInputMessage}
use lantern_remote.Client.Session.{Session, accept_room}
use lantern_remote.Client.Session.Run.{SessionEvent, step, accept_begin, run}
use lantern_remote.Client.Store.{reset}
use lantern_remote.Client.RemoteInput.{forward_to_host}
use lantern_remote.Client.Session.{
  teardown_session, fail_session, negotiation_timer_fires, negotiation_end, cleaned_up,
}
use lantern_remote.Client.Session.Listeners.{
  on_connection_state, on_local_candidate, on_remote_input_message, on_control_message,
  on_signaling, token_checked,
}
use lantern_remote.Client.Session.Actions.{
  connect_to_remote_begin, connected_to_remote, connect_to_remote_failed, accept_incoming_begin,
  accept_incoming_acked, accept_incoming_end, reject_incoming_begin, reject_incoming_end,
  disconnect_session_begin, disconnect_session_end,
}
use lantern_remote.Client.Signaling
use lantern_remote.Client.Signaling.{request_body}
use lantern_remote.Shared.Signaling.{parse_room_action_payload}

accept_events :
    (parse_json : Text → Option Value) (round : Number → Number)
    (summarize : RemoteInputMessage → Text) (e : SessionEvent) (s : Session) (room_id : Text)
    → (step parse_json round summarize e s).1 ≡ accept_room room_id ∷ []
    → e ≡ accept_begin
unfolding step on_connection_state on_local_candidate on_remote_input_message on_control_message
    on_signaling token_checked negotiation_timer_fires negotiation_end connect_to_remote_begin
    connected_to_remote connect_to_remote_failed accept_incoming_begin accept_incoming_acked
    accept_incoming_end reject_incoming_begin reject_incoming_end disconnect_session_begin
    disconnect_session_end fail_session teardown_session reset forward_to_host cleaned_up
accept_events parse_json round summarize e s room_id h = ground arith

parse-accept_room :
    (room_id id : Text)
    → parse_room_action_payload (request_body (Signaling.accept_room room_id)) ≡ some id
    → room_id ≡ id
unfolding parse_room_action_payload request_body read
parse-accept_room room_id id h = ground arith

-- A room that is accepted from the socket was so before, or the event is its acceptance.
accepted_by :
    {socket window : Text} {e : Event} {s : SignalingServer} {before after : Option ConnectionRoom}
    (r : ConnectionRoom)
    → Move socket e s before after
    → after ≡ some r
    → r.status ≡ accepted
    → r.host_socket_id ≡ some window
    → (before ≡ some r)
      ⊎ ((q : ConnectionRoom) × (before ≡ some q) × (socket ≡ window) × Accepts e q.id)
unfolding admitted
accepted_by r (keeps same) h open_room by_window = inl (sym same ∙ h)
accepted_by r (opens q before after waits speaks) h open_room by_window = absurd (ground arith)
accepted_by r (admits q before waits speaks asks after) h open_room by_window =
    inr (q, before, ground arith, asks)
accepted_by r (closes q d before member speaks after) h open_room by_window = absurd (ground arith)

nothing_stored : (id : Text) (r : ConnectionRoom) → get_room id started.rooms ≢ some r
unfolding get_room get
nothing_stored id r h = cc

stored_id :
    {s : SignalingServer}
    → Reachable s
    → (id : Text) (q : ConnectionRoom) → get_room id s.rooms ≡ some q
    → q.id ≡ id
unfolding get_room
stored_id reach id q h = ((Reachable-IsSound reach).consistent.keyed id q h).0

survived :
    (now : ℕ) (o : Option ConnectionRoom) (r : ConnectionRoom)
    → survivor now o ≡ some r
    → o ≡ some r
survived now o r h = ground arith

get_room-sweep :
    (rt : Runtime) {s : SignalingServer}
    → Reachable s
    → (id : Text) (r : ConnectionRoom) → get_room id (sweep rt s).0.rooms ≡ some r
    → get_room id s.rooms ≡ some r
unfolding sweep
get_room-sweep rt {s} reach id r h =
    survived rt.now (get_room id s.rooms) r
      (sym (get_room-expire_pending rt.now id (Reachable-IsSound reach).consistent) ∙ h)

module _ (parse_json : Text → Option Value) (round : Number → Number)
    (summarize : RemoteInputMessage → Text) where
  Asked-Consented :
      {room_id : Text} {past : List SessionEvent}
      → Asked parse_json round summarize room_id past
      → Consented parse_json round summarize room_id past
  Asked-Consented {room_id} (here e past h) =
      let s = run parse_json round summarize past in
      let (q, shown, same) = accepts_shown parse_json round summarize e s room_id h in
      subst (λ x. Consented parse_json round summarize room_id (x ∷ past))
        (sym (accept_events parse_json round summarize e s room_id h))
        (given q past same shown (run-IsChecked parse_json round summarize past q shown))
  Asked-Consented (there e asked) = earlier e (Asked-Consented asked)

  Joint-Reachable :
      {window : Text} {s : SignalingServer} {past : List SessionEvent}
      → Joint parse_json round summarize window s past
      → Reachable s
  Joint-Reachable starts = start
  Joint-Reachable (acts e j) = Joint-Reachable j
  Joint-Reachable (stranger rt socket e other u j) = event rt socket e u (Joint-Reachable j)
  Joint-Reachable {window} (sends rt e allowed u j) = event rt window e u (Joint-Reachable j)
  Joint-Reachable (sweeps rt j) = swept rt (Joint-Reachable j)

  -- An acceptance that the socket sends is one that the window has called for.
  sent-Consented :
      (past : List SessionEvent) (e : Event) (raw : Value) (id : Text)
      → Sends parse_json round summarize past e
      → e ≡ connection_accepted_event raw
      → parse_room_action_payload raw ≡ some id
      → Consented parse_json round summarize id past
  sent-Consented past (connection_accepted_event w) raw id (room_id, written, asked) same parsed =
      let again : w ≡ raw = cc in
      let read_back =
        subst (λ x. parse_room_action_payload x ≡ some id) (sym again ∙ written) parsed in
      subst (λ i. Consented parse_json round summarize i past)
        (parse-accept_room room_id id read_back) (Asked-Consented asked)
  sent-Consented past _ raw id allowed same parsed = absurd (cc)

  -- However the server is used, by whatever sockets, and in whatever order of events: if a room is
  -- accepted from the socket of the window, its user has accepted a request for this room while it was
  -- shown, whose code the main process had found valid before. It is assumed that the socket sends
  -- an acceptance only when the window has called for one.
  pub consent :
      (window : Text) {s : SignalingServer} {past : List SessionEvent}
      → Joint parse_json round summarize window s past
      → (id : Text) (r : ConnectionRoom) → get_room id s.rooms ≡ some r
      → r.status ≡ accepted
      → r.host_socket_id ≡ some window
      → Consented parse_json round summarize id past
  consent window starts id r found open_room mine = absurd (nothing_stored id r found)
  consent window (acts e j) id r found open_room mine =
      earlier e (consent window j id r found open_room mine)
  consent window (stranger {s} rt socket e other u j) id r found open_room mine =
      elim (accepted_by r (step-Move (Joint-Reachable j) rt socket e id u) found open_room mine) [
        | inl before ↦ consent window j id r before open_room mine
        | inr (q, before, same, asks) ↦ absurd (other same)
      ]
  consent window (sends {s} {past} rt e allowed u j) id r found open_room mine =
      elim (accepted_by r (step-Move (Joint-Reachable j) rt window e id u) found open_room mine) [
        | inl before ↦ consent window j id r before open_room mine
        | inr (q, before, same, (raw, is, parsed)) ↦
            let named = stored_id (Joint-Reachable j) id q before in
            subst (λ i. Consented parse_json round summarize i past) named
              (sent-Consented past e raw q.id allowed is parsed)
      ]
  consent window (sweeps {s} rt j) id r found open_room mine =
      consent window j id r (get_room-sweep rt (Joint-Reachable j) id r found) open_room mine
