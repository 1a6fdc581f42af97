-- ===== src/Client/WebRtc/Run/Channels.antt =====
-- src/services/WebRTCService.ts: which channel is which.
use lantern_remote.Common.{
  refl, ℕ, ◌≡◌, Bool, true, ◌&&◌, List, [], ◌∷◌, Option, none, some, Text, arith, ltb,
}
use lantern_remote.Client.WebRtc.{
  WebRtc, on_message, on_open, ChannelKind, wire, slot, ensure_peer, open_channel, open_channels,
  opened_if_fresh, create_offer, accept_offer, close, is_none, notices, control, false, suc,
  kind_of_label, remote_input, clipboard,
}
use lantern_remote.Client.WebRtc.Handlers.{
  PeerEvent, on_peer, wired_as, opened, message, on_channel, peer_handlers, arrives, data_channel,
}
use lantern_remote.Client.WebRtc.Run.{
  WebRtcEvent, offer_wanted, offer_received, peer_event, step, run,
}

abbrev same_kind : ChannelKind → ChannelKind → Bool
same_kind control control = true
same_kind remote_input remote_input = true
same_kind clipboard clipboard = true
same_kind a b = false

abbrev is_kind : ChannelKind → Option ChannelKind → Bool
is_kind kind none = false
is_kind kind (some k) = same_kind k kind

-- The channel of a field has a number that was given out, and the handlers of its kind.
abbrev fits : ChannelKind → Option ℕ → WebRtc → Bool
fits kind none s = true
fits kind (some c) s = ltb c s.next && is_kind kind (wired_as c s.wired)

abbrev all_fit : WebRtc → Bool
all_fit s =
    fits control s.control_channel s
    && (fits remote_input s.input_channel s && fits clipboard s.clipboard_channel s)

all_fit-wire :
    (kind : ChannelKind) (s : WebRtc)
    → all_fit s ≡ true
    → all_fit (wire kind s.next (record s { next = suc s.next })) ≡ true
unfolding wire
all_fit-wire control s h = ground arith
all_fit-wire remote_input s h = ground arith
all_fit-wire clipboard s h = ground arith

all_fit-next : (s : WebRtc) → all_fit s ≡ true → all_fit (record s { next = suc s.next }) ≡ true
all_fit-next s h = ground arith

all_fit-arrives :
    (kind : Option ChannelKind) (s : WebRtc) → all_fit s ≡ true → all_fit (arrives kind s) ≡ true
unfolding arrives
all_fit-arrives none s h = all_fit-next s h
all_fit-arrives (some kind) s h = all_fit-wire kind s h

all_fit-on_peer :
    (pc : ℕ) (e : PeerEvent) (s : WebRtc) → all_fit s ≡ true → all_fit (on_peer pc e s).0 ≡ true
unfolding on_peer peer_handlers
all_fit-on_peer pc (data_channel label) s h =
    ground (arith, all_fit-arrives (kind_of_label label) s h)
all_fit-on_peer pc e s h = ground arith

all_fit-open :
    (kind : ChannelKind) (pc : ℕ) (s : WebRtc)
    → all_fit s ≡ true
    → all_fit (open_channel kind pc s).0 ≡ true
unfolding open_channel
all_fit-open kind pc s h = all_fit-wire kind s h

all_fit-opened :
    (fresh : Bool) (pc : ℕ) (s : WebRtc)
    → all_fit s ≡ true
    → all_fit (opened_if_fresh fresh pc s).0 ≡ true
unfolding open_channels
all_fit-opened false pc s h = h
all_fit-opened true pc s h =
    let s1 = (open_channel control pc s).0 in
    let s2 = (open_channel remote_input pc s1).0 in
    all_fit-open clipboard pc s2 (all_fit-open remote_input pc s1 (all_fit-open control pc s h))

is_kind-eq_some :
    (kind : ChannelKind) (o : Option ChannelKind) → is_kind kind o ≡ true → o ≡ some kind
is_kind-eq_some kind o h = ground arith

fits-wired :
    (kind : ChannelKind) (o : Option ℕ) (s : WebRtc) (c : ℕ)
    → fits kind o s ≡ true
    → o ≡ some c
    → wired_as c s.wired ≡ some kind
fits-wired kind none s c h e = absurd (cc)
fits-wired kind (some d) s c h e = ground (arith, is_kind-eq_some kind (wired_as d s.wired))

slot-wired :
    (kind : ChannelKind) (s : WebRtc) (c : ℕ)
    → all_fit s ≡ true
    → slot kind s ≡ some c
    → wired_as c s.wired ≡ some kind
slot-wired control s c h e = fits-wired control s.control_channel s c (ground arith) e
slot-wired remote_input s c h e = fits-wired remote_input s.input_channel s c (ground arith) e
slot-wired clipboard s c h e = fits-wired clipboard s.clipboard_channel s c (ground arith) e

module _ (trim : Text → Text) (env : Option Text) where
  all_fit-ensure : (s : WebRtc) → all_fit s ≡ true → all_fit (ensure_peer trim env s).0 ≡ true
  unfolding ensure_peer
  all_fit-ensure s h = ground arith

  all_fit-create_offer :
      (s : WebRtc) → all_fit s ≡ true → all_fit (create_offer trim env s).0 ≡ true
  unfolding create_offer
  all_fit-create_offer s h =
      all_fit-opened (is_none s.pc) (ensure_peer trim env s).1 (ensure_peer trim env s).0
        (all_fit-ensure s h)

  step-all_fit :
      (e : WebRtcEvent) (s : WebRtc) → all_fit s ≡ true → all_fit (step trim env e s).0 ≡ true
  unfolding step accept_offer close
  step-all_fit offer_wanted s h = all_fit-create_offer s h
  step-all_fit (peer_event pc e) s h = all_fit-on_peer pc e s h
  step-all_fit (offer_received sdp) s h = all_fit-ensure s h
  step-all_fit e s h = ground arith

  run-all_fit : (events : List WebRtcEvent) → all_fit (run trim env events) ≡ true
  unfolding run
  run-all_fit [] = refl
  run-all_fit (e ∷ past) = step-all_fit e (run trim env past) (run-all_fit past)

  -- The channel on which frames of one kind are sent is heard as that kind: what arrives on it goes
  -- to the handlers of no other.
  pub sent_and_heard_as_one :
      (events : List WebRtcEvent) (kind : ChannelKind) (c : ℕ) (frame : Text)
      → slot kind (run trim env events) ≡ some c
      → (on_channel c (message (some frame)) (run trim env events)
          ≡ notices (run trim env events) (on_message kind frame))
        × (on_channel c opened (run trim env events) ≡ notices (run trim env events) (on_open kind))
  unfolding on_channel
  sent_and_heard_as_one events kind c frame h =
      rw (slot-wired kind (run trim env events) c (run-all_fit events) h) (refl, refl)
