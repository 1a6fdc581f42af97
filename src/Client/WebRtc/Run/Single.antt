-- ===== src/Client/WebRtc/Run/Single.antt =====
-- src/services/WebRTCService.ts: there is one connection at a time, and only it is heard.
use lantern_remote.Common.{
  refl, Option-cases, ℕ, ◌≡◌, Bool, true, ◌&&◌, List, [], ◌∷◌, Option, none, some, Text, arith, ◌⊎◌,
  inl, inr,
}
use lantern_remote.Client.WebRtc.{
  WebRtc, Action, new_peer, close_peer, ChannelKind, wire, slot, send_on_channel, ensure_peer,
  open_channel, create_offer, accept_offer, close, without, is_none, map, add_track, false,
  remove_track,
}
use lantern_remote.Client.WebRtc.Handlers.{
  Senders, add_local_stream, remove_local_stream, PeerEvent, ChannelEvent, on_peer, on_channel,
  peer_handlers, arrives, new_tracks,
}
use lantern_remote.Client.WebRtc.Run.{
  WebRtcEvent, share, unshare, close_all, peer_event, channel_event, step, run,
}

-- The connections opened and not closed by what the browser was asked for.
abbrev pub open_after : List Action → List ℕ → List ℕ
open_after [] pcs = pcs
open_after (new_peer pc urls ∷ rest) pcs = open_after rest (pc ∷ pcs)
open_after (close_peer pc ∷ rest) pcs = open_after rest (without pc pcs)
open_after (a ∷ rest) pcs = open_after rest pcs

abbrev pub current : Option ℕ → List ℕ
current none = []
current (some pc) = pc ∷ []

-- A service without a connection has no channel.
abbrev pub is_tidy : WebRtc → Bool
is_tidy s = elim s.pc [
  | some pc ↦ true
  | none ↦ is_none s.control_channel && (is_none s.input_channel && is_none s.clipboard_channel)
]

-- What is done with local tracks opens and closes no connection.
open_after-share :
    (pc : ℕ) (tracks : List Text) (pcs : List ℕ) → open_after (map (add_track pc) tracks) pcs ≡ pcs
open_after-share pc [] pcs = refl
open_after-share pc (t ∷ ts) pcs = open_after-share pc ts pcs

open_after-unshare :
    (pc : ℕ) (senders : Senders) (pcs : List ℕ)
    → open_after (map (λ (n, t). remove_track pc n) senders) pcs ≡ pcs
open_after-unshare pc [] pcs = refl
open_after-unshare pc ((n, t) ∷ senders) pcs = open_after-unshare pc senders pcs

tracks-open :
    (senders : Senders) (tracks : List Text) (s : WebRtc)
    → (open_after (add_local_stream senders tracks s) (current s.pc) ≡ current s.pc)
      × (open_after (remove_local_stream senders s) (current s.pc) ≡ current s.pc)
tracks-open senders tracks s = elim (Option-cases s.pc) [
  | inl n ↦ rw n (refl, refl)
  | inr (pc, n) ↦ rw n (
    open_after-share pc (new_tracks senders tracks) (pc ∷ []),
    open_after-unshare pc senders (pc ∷ []),
  )
]

heard-open :
    (pc : ℕ) (e : PeerEvent) (s : WebRtc) (pcs : List ℕ)
    → (open_after (on_peer pc e s).1 pcs ≡ pcs) × ((on_peer pc e s).0.pc ≡ s.pc)
unfolding on_peer peer_handlers arrives wire
heard-open pc e s pcs = ground arith

channel-open :
    (c : ℕ) (e : ChannelEvent) (s : WebRtc) (pcs : List ℕ) → open_after (on_channel c e s) pcs ≡ pcs
unfolding on_channel
channel-open c e s pcs = ground arith

close-open : (s : WebRtc) → open_after (close s).1 (current s.pc) ≡ current (close s).0.pc
unfolding close
close-open s = ground arith

heard :
    (pc : ℕ) (e : PeerEvent) (s : WebRtc)
    → s.hooked ≡ current s.pc
    → (on_peer pc e s ≡ (s, [])) ⊎ (s.pc ≡ some pc)
unfolding on_peer
heard pc e s h = elim (Option-cases s.pc) [ inl n ↦ inl (ground arith) | inr (p, n) ↦ ground arith ]

silent :
    (kind : ChannelKind) (sends : ℕ → Bool) (frame : Text) (s : WebRtc)
    → is_tidy s ≡ true
    → ((pc : ℕ) × (s.pc ≡ some pc)) ⊎ (send_on_channel sends (slot kind s) frame ≡ (false, []))
unfolding send_on_channel
silent kind sends frame s t = elim (Option-cases s.pc) [
  | inl n ↦ inr (ground arith)
  | inr (p, n) ↦ inl (p, n)
]

module _ (trim : Text → Text) (env : Option Text) where
  step-hooked :
      (e : WebRtcEvent) (s : WebRtc)
      → s.hooked ≡ current s.pc
      → is_tidy s ≡ true
      → ((step trim env e s).0.hooked ≡ current (step trim env e s).0.pc)
        × (is_tidy (step trim env e s).0 ≡ true)
  unfolding step create_offer accept_offer ensure_peer open_channel wire close on_peer peer_handlers
      arrives
  step-hooked e s h t = ground arith

  pub run-hooked :
      (events : List WebRtcEvent)
      → ((run trim env events).hooked ≡ current (run trim env events).pc)
        × (is_tidy (run trim env events) ≡ true)
  unfolding run
  run-hooked [] = (refl, refl)
  run-hooked (e ∷ past) = let (h, t) = run-hooked past in step-hooked e (run trim env past) h t

  -- An event of a connection does something only if it is the current one, and with no connection
  -- no frame is sent, whatever the browser would take.
  pub only_current_is_heard :
      (events : List WebRtcEvent) (pc : ℕ) (e : PeerEvent) (kind : ChannelKind) (sends : ℕ → Bool)
      (frame : Text)
      → let s = run trim env events in
        ((step trim env (peer_event pc e) s ≡ (s, [])) ⊎ (s.pc ≡ some pc))
        × (((pc : ℕ) × (s.pc ≡ some pc))
            ⊎ (send_on_channel sends (slot kind s) frame ≡ (false, [])))
  unfolding step on_peer send_on_channel
  only_current_is_heard events pc e kind sends frame =
      let (h, t) = run-hooked events in
      (heard pc e (run trim env events) h, silent kind sends frame (run trim env events) t)

  step-open :
      (e : WebRtcEvent) (s : WebRtc)
      → open_after (step trim env e s).1 (current s.pc) ≡ current (step trim env e s).0.pc
  unfolding step create_offer accept_offer ensure_peer open_channel wire send_on_channel
  step-open (share senders tracks) s = (tracks-open senders tracks s).0
  step-open (unshare senders) s = (tracks-open senders [] s).1
  step-open (peer_event pc e) s = ground (arith, heard-open pc e s (current s.pc))
  step-open (channel_event c e) s = channel-open c e s (current s.pc)
  step-open close_all s = close-open s
  step-open e s = ground arith

  -- The connections that were opened and not closed, after the events of a list.
  abbrev pub open_peers : List WebRtcEvent → List ℕ
  open_peers [] = []
  open_peers (e ∷ past) = open_after (step trim env e (run trim env past)).1 (open_peers past)

  -- Whatever is called and whatever the browser does, the connections that were opened and not
  -- closed are the current one, or none: none is left open behind.
  pub one_connection :
      (events : List WebRtcEvent) → open_peers events ≡ current (run trim env events).pc
  unfolding run
  one_connection [] = refl
  one_connection (e ∷ past) = rw (one_connection past) (step-open e (run trim env past))
