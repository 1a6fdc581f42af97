-- ===== src/Client/Viewer/Frames.antt =====
-- Which frames are counted.
use lantern_remote.Common.{
  ℕ, ◌<◌, ◌≡◌, Bool, true, false, List, [], ◌∷◌, ◌++◌, Option, none, some, arith, Text,
  if◌then◌else◌, ◌≤◌,
}
use lantern_remote.Client.Viewer.{Viewer, FrameCounter, same_stream, has_stream, counted, rendered}
use lantern_remote.Client.Viewer.Effects.{
  ViewerEvent, set_stream, frame, step, on_frame, mounted, run,
}

-- The handle that is waited for, or the next one.
abbrev pending : ℕ → Option FrameCounter → ℕ
pending next none = next
pending next (some c) = c.handle

-- The callback that is waited for has a handle from `n` on.
abbrev IsCountedFrom : ℕ → Viewer → Type 0
IsCountedFrom n v = (n ≤ v.handles) × (n ≤ pending v.handles v.counter)

abbrev pub has_counter : Option FrameCounter → Bool
has_counter none = false
has_counter (some c) = true

-- Frames are counted exactly while there is a stream; without one, no rate is shown.
abbrev pub CountsStream : Viewer → Type 0
CountsStream v =
    (has_counter v.counter ≡ has_stream v.stream) × ((if has_stream v.stream then 0 else v.fps) ≡ 0)

IsCountedFrom-step :
    (n now : ℕ) (e : ViewerEvent) (v : Viewer)
    → IsCountedFrom n v
    → IsCountedFrom n (step now e v).0
unfolding step rendered counted on_frame
IsCountedFrom-step n now e v h = ground arith

CountsStream-step :
    (now : ℕ) (e : ViewerEvent) (v : Viewer) → CountsStream v → CountsStream (step now e v).0
unfolding step rendered counted on_frame
CountsStream-step now e v h = ground arith

-- Whatever happens, frames are counted exactly while there is a stream, and without one the rate
-- that is shown is zero.
pub counts_stream :
    (now : ℕ) (stream : Option Text) (past : List (ℕ × ViewerEvent))
    → CountsStream (run now stream past).0
unfolding run
counts_stream now stream [] = unfold mounted rendered counted in ground arith
counts_stream now stream ((at, e) ∷ past) =
    CountsStream-step at e (run now stream past).0 (counts_stream now stream past)

module _ (now : ℕ) (stream s : Option Text) (past : List (ℕ × ViewerEvent)) (at : ℕ)
    (other : same_stream (run now stream past).0.stream s ≡ false) where
  counted_from :
      (later : List (ℕ × ViewerEvent))
      → IsCountedFrom
          (run now stream past).0.handles
          (run now stream (later ++ ((at, set_stream s) ∷ past))).0
  unfolding run
  counted_from [] = unfold step rendered counted in ground arith
  counted_from ((t, e) ∷ later) =
      IsCountedFrom-step _ t e (run now stream (later ++ ((at, set_stream s) ∷ past))).0
        (counted_from later)

  -- Once the stream has been changed or taken away, a callback that was asked for before does nothing,
  -- however late it comes.
  pub old_frames_are_ignored :
      (later : List (ℕ × ViewerEvent)) (t h : ℕ)
      → h < (run now stream past).0.handles
      → let v = (run now stream (later ++ ((at, set_stream s) ∷ past))).0 in
        step t (frame h) v ≡ (v, [])
  unfolding step on_frame
  old_frames_are_ignored later t h l = ground (arith, counted_from later)
