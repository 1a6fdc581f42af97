-- ===== src/Client/ScreenShare/Live.antt =====
-- src/hooks/useScreenShare.ts: the captures that run.
use lantern_remote.Common.{
  refl, ◌∙◌, ap, inl, inr, ◌⊎◌, ℕ, ◌≡◌, Bool, true, false, not, ◌&&◌, List, [], ◌∷◌, Option, none,
  some, Text, eqb, leb, ◌==◌, keep, if◌then◌else◌, arith,
}
use lantern_remote.Client.Session.{stop_stream}
use lantern_remote.Client.ScreenShare.{
  ShareAction, call, ScreenShare, ShareEvent, start, stop, captured, session_ends, start_sharing,
  capture_started, stop_sharing, stop_local_capture, step, run,
}

-- The captures that run after a list of calls, stopped by `stopStream` only.
abbrev pub runs_after : List ShareAction → List Text → List Text
runs_after [] streams = streams
runs_after (call (stop_stream (some stream)) ∷ rest) streams =
    runs_after rest (keep (λ s. not (s == stream)) streams)
runs_after (a ∷ rest) streams = runs_after rest streams

-- A capture begins to run when the browser gives it.
abbrev pub begun : (asked : ℕ) → ShareEvent → List Text → List Text
begun asked (captured stream size attach_error notified) streams =
    if eqb asked 0 then streams else stream ∷ streams
begun asked e streams = streams

-- The captures that run after the events of a list.
abbrev pub live : List ShareEvent → List Text
live [] = []
live (e ∷ past) = runs_after (step e (run past)).1 (begun (run past).asked e (live past))

abbrev is_start : ShareEvent → Bool
is_start start = true
is_start e = false

-- Sharing is never started while a capture is waited for.
abbrev pub is_calm : List ShareEvent → Bool
is_calm [] = true
is_calm (e ∷ past) = (if is_start e then eqb (run past).asked 0 else true) && is_calm past

abbrev pub own : Option Text → List Text
own none = []
own (some stream) = stream ∷ []

abbrev pub has_stream : Option Text → Bool
has_stream none = false
has_stream (some stream) = true

-- At most one capture is waited for, and then none is shared.
abbrev is_orderly : ScreenShare → Bool
is_orderly s = elim s.store.local_stream [
  | none ↦ not s.store.sharing && leb s.asked 1
  | some stream ↦ s.store.sharing && eqb s.asked 0
]

step-orderly :
    (e : ShareEvent) (s : ScreenShare)
    → (if is_start e then eqb s.asked 0 else true) ≡ true
    → is_orderly s ≡ true
    → (is_orderly (step e s).0 ≡ true)
      × (runs_after (step e s).1 (begun s.asked e (own s.store.local_stream))
          ≡ own (step e s).0.store.local_stream)
unfolding step start_sharing capture_started stop_sharing stop_local_capture
step-orderly (captured stream size none true) s c h = ground arith
step-orderly (captured stream size none false) s c h = ground arith
step-orderly (captured stream size (some error) notified) s c h = ground arith
step-orderly start s c h = ground arith
step-orderly stop s c h = ground arith
step-orderly session_ends s c h = ground arith
step-orderly e s c h = ground arith

run-orderly :
    (events : List ShareEvent)
    → is_calm events ≡ true
    → (is_orderly (run events) ≡ true) × (live events ≡ own (run events).store.local_stream)
unfolding run
run-orderly [] c = (refl, refl)
run-orderly (e ∷ past) c =
    let (h, same) = run-orderly past (ground arith) in
    let (g, new) = step-orderly e (run past) (ground arith) h in (g, rw same new)

stopped :
    (e : ShareEvent) (s : ScreenShare)
    → (e ≡ stop) ⊎ (e ≡ session_ends)
    → (step e s).0.store.local_stream ≡ none
unfolding step stop_sharing stop_local_capture
stopped e s (inl h) = rw h refl
stopped e s (inr h) = rw h refl

-- If sharing is never started while a capture is waited for, the captures that run are the one of the
-- store, which is shared, or none if nothing is shared; after a stop, or once the session ends, none
-- runs.
pub no_capture_is_left :
    (events : List ShareEvent)
    → is_calm events ≡ true
    → (live events ≡ own (run events).store.local_stream)
      × (has_stream (run events).store.local_stream ≡ (run events).store.sharing)
      × (live (stop ∷ events) ≡ [])
      × (live (session_ends ∷ events) ≡ [])
unfolding run step
no_capture_is_left events c =
    let (h, same) = run-orderly events c in
    let stop_same = (run-orderly (stop ∷ events) c).1 in
    let end_same = (run-orderly (session_ends ∷ events) c).1 in
    (
      same,
      ground arith,
      stop_same ∙ ap own (stopped stop (run events) (inl refl)),
      end_same ∙ ap own (stopped session_ends (run events) (inr refl)),
    )
