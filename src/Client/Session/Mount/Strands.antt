-- ===== src/Client/Session/Mount/Strands.antt =====
-- src/hooks/useSignalingSession.ts: the session that a change of the settings leaves behind.
use lantern_remote.Common.{
  ◌≡◌, Bool, true, false, not, List, [], ◌∷◌, ◌++◌, none, arith, Text, ◌==◌,
}
use lantern_remote.Client.Session.{cleaned_up}
use lantern_remote.Client.Signaling.{SignalingService, connect, disconnect}
use lantern_remote.Client.Signaling.Requests.{sockets, closes}
use lantern_remote.Client.Session.Mount.{
  SessionHook, HookAction, close_peer, clean_up, effect, rendered, HookEvent, set_url, set_stun,
  step, run, signaling_url_of,
}
use lantern_remote.Client.Session.Mount.Sockets.{closed, closed-append, closed-map}

abbrev pub closes_peer_first : List HookAction → Bool
closes_peer_first (close_peer ∷ rest) = true
closes_peer_first _ = false

-- The peer connection and the held socket are closed, and the store says nothing of it.
abbrev pub Strands : (before : SessionHook) → SessionHook × List HookAction → Type 0
Strands before (after, actions) =
    (after.session.store ≡ before.session.store)
    × (after.session.negotiation_timer ≡ false)
    × (closes_peer_first actions ≡ true)
    × (closed actions ≡ sockets before.signaling.socket)

module _ (env : Text) where
  effect-session : (h : SessionHook) → (effect env h).0.session ≡ h.session
  unfolding effect
  effect-session h = ground arith

  -- A new value of a setting.
  abbrev pub changes_setting : HookEvent → SessionHook → Bool
  changes_setting (set_stun t) h = not (t == h.stun_servers)
  changes_setting (set_url t) h = not (t == h.signaling_url)
  changes_setting _ h = false

  connect-closes :
      (url id : Text) (s : SignalingService) → s.socket ≡ none → closes (connect url id s).1 ≡ 0
  unfolding connect disconnect
  connect-closes url id s h = rw h (ground arith)

  effect-closed : (h : SessionHook) → h.signaling.socket ≡ none → closed (effect env h).1 ≡ 0
  unfolding effect closed
  effect-closed h none_held =
      let url = signaling_url_of env h.signaling_url in
      ground (
        arith,
        connect-closes url h.device.device_id h.signaling none_held,
        closed-map (connect url h.device.device_id h.signaling).1,
      )

  clean_up-Strands : (h : SessionHook) → h.active ≡ true → Strands h (clean_up h)
  unfolding clean_up cleaned_up closed disconnect
  clean_up-Strands h active = ground arith

  clean_up-socket : (h : SessionHook) → h.active ≡ true → (clean_up h).0.signaling.socket ≡ none
  unfolding clean_up disconnect
  clean_up-socket h active = ground arith

  closes_peer_first-append :
      (xs ys : List HookAction) → closes_peer_first xs ≡ true → closes_peer_first (xs ++ ys) ≡ true
  closes_peer_first-append (x ∷ xs) ys h = ground arith
  closes_peer_first-append [] ys h = absurd (cc)

  rendered-Strands :
      (changed : Bool) (h : SessionHook)
      → changed ≡ true
      → h.active ≡ true
      → Strands h (rendered env changed h)
  unfolding rendered
  rendered-Strands changed h new active =
      let (cleaned, before) = clean_up h in
      let after = (effect env cleaned).1 in
      let (store, timer, first, sockets_closed) = clean_up-Strands h active in
      rw new (
        rw (effect-session cleaned) store,
        rw (effect-session cleaned) timer,
        closes_peer_first-append before after first,
        omega (
          arith,
          closed-append before after,
          effect-closed cleaned (clean_up-socket h active),
          sockets_closed,
        ),
      )

  -- A setting that changes while the effect runs closes the peer connection first, and the socket of
  -- the server if there is one, clears the negotiation timer, and leaves the store of the session as it
  -- was.
  pub settings_change-Strands :
      (url stun : Text) (past : List HookEvent) (e : HookEvent)
      → (run env url stun past).0.active ≡ true
      → changes_setting e (run env url stun past).0 ≡ true
      → Strands (run env url stun past).0 (step env e (run env url stun past).0)
  unfolding step
  settings_change-Strands url stun past (set_stun t) active new =
      let h = (run env url stun past).0 in
      rendered-Strands (not (t == h.stun_servers)) (record h { stun_servers = t }) new active
  settings_change-Strands url stun past (set_url t) active new =
      let h = (run env url stun past).0 in
      rendered-Strands (not (t == h.signaling_url)) (record h { signaling_url = t }) new active
  settings_change-Strands url stun past e active new = absurd (ground arith)
