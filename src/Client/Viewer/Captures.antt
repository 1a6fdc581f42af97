-- ===== src/Client/Viewer/Captures.antt =====
-- When input is captured, and which frames are counted.
use lantern_remote.Common.{
  ℕ, suc, ◌+◌, ◌≡◌, refl, Bool, true, false, not, ◌&&◌, List, [], ◌∷◌, ◌++◌, Option, none, some,
  arith, Text,
}
use lantern_remote.Client.Viewer.{
  Viewer, ViewerCommand, set_source, play, attach_capture, detach_capture, listen_size,
  unlisten_size, schedule, FrameCounter, input_active, has_stream, same, when, cancelled, counted,
  fullscreen_effect, effects, rendered,
}
use lantern_remote.Client.Viewer.Effects.{
  ViewerEvent, set_stream, set_role, set_status, session_reset, frame, toggle_fullscreen,
  entered_fullscreen, left_fullscreen, refused_fullscreen, step, on_frame, mounted, run, blank,
}

unfoldable pub attaches : List ViewerCommand → ℕ
attaches [] = 0
attaches (attach_capture ∷ rest) = suc (attaches rest)
attaches (_ ∷ rest) = attaches rest

unfoldable pub detaches : List ViewerCommand → ℕ
detaches [] = 0
detaches (detach_capture ∷ rest) = suc (detaches rest)
detaches (_ ∷ rest) = detaches rest

abbrev pub bit : Bool → ℕ
bit true = 1
bit false = 0

attaches-append : (xs ys : List ViewerCommand) → attaches (xs ++ ys) ≡ attaches xs + attaches ys
unfolding attaches
attaches-append [] ys = omega arith
attaches-append (c ∷ xs) ys = ground (arith, attaches-append xs ys)

detaches-append : (xs ys : List ViewerCommand) → detaches (xs ++ ys) ≡ detaches xs + detaches ys
unfolding detaches
detaches-append [] ys = omega arith
detaches-append (c ∷ xs) ys = ground (arith, detaches-append xs ys)

-- What the commands have attached and not detached is what is active.
abbrev IsBalanced : (before after : Bool) → List ViewerCommand → Type 0
IsBalanced before after commands = attaches commands + bit before ≡ detaches commands + bit after

abbrev IsNeutral : List ViewerCommand → Type 0
IsNeutral commands = (attaches commands ≡ 0) × (detaches commands ≡ 0)

when-IsNeutral :
    (b : Bool) (commands : List ViewerCommand) → IsNeutral commands → IsNeutral (when b commands)
unfolding attaches detaches
when-IsNeutral true commands h = h
when-IsNeutral false commands h = (refl, refl)

among-IsBalanced :
    (p q : Bool) (a b c d e : List ViewerCommand)
    → IsNeutral a
    → IsNeutral b
    → IsNeutral c
    → IsNeutral d
    → IsNeutral e
    → IsBalanced p q (
        a
        ++ (when (not (same p q) && p) (detach_capture ∷ [])
            ++ (b ++ (c ++ (when (not (same p q) && q) (attach_capture ∷ []) ++ (d ++ e))))))
unfolding attaches detaches
among-IsBalanced true true a b c d e h i j k l =
    simp (attaches-append, detaches-append) (omega arith)
among-IsBalanced true false a b c d e h i j k l =
    simp (attaches-append, detaches-append) (omega arith)
among-IsBalanced false true a b c d e h i j k l =
    simp (attaches-append, detaches-append) (omega arith)
among-IsBalanced false false a b c d e h i j k l =
    simp (attaches-append, detaches-append) (omega arith)

cancelled-IsNeutral : (o : Option FrameCounter) → IsNeutral (unlisten_size ∷ cancelled o)
unfolding attaches detaches
cancelled-IsNeutral none = (refl, refl)
cancelled-IsNeutral (some c) = (refl, refl)

fullscreen-IsNeutral : (v : Viewer) → IsNeutral (fullscreen_effect v)
unfolding attaches detaches
fullscreen-IsNeutral v = ground arith

effects-IsBalanced : (v w : Viewer) → IsBalanced (input_active v) (input_active w) (effects v w)
unfolding effects
effects-IsBalanced v w =
    let plain : IsNeutral [] = unfold attaches detaches in (refl, refl) in
    among-IsBalanced (input_active v) (input_active w) _ _ _ _ _
      (when-IsNeutral _ (set_source none ∷ []) (unfold attaches detaches in (refl, refl)))
      (when-IsNeutral _ _ (cancelled-IsNeutral v.counter))
      (when-IsNeutral _ (set_source w.stream ∷ (play ∷ []))
        (unfold attaches detaches in (refl, refl)))
      (when-IsNeutral _ (listen_size ∷ (schedule w.handles ∷ []))
        (unfold attaches detaches in (refl, refl)))
      (when-IsNeutral _ _ (fullscreen-IsNeutral w))

input_active-counted : (now : ℕ) (v : Viewer) → input_active (counted now v) ≡ input_active v
unfolding input_active counted
input_active-counted now v = ground arith

rendered-IsBalanced :
    (now : ℕ) (v w : Viewer)
    → IsBalanced (input_active v) (input_active (rendered now v w).0) (rendered now v w).1
unfolding rendered
rendered-IsBalanced now v w = ground (arith, effects-IsBalanced v w, input_active-counted now w)

on_frame-IsBalanced :
    (now handle : ℕ) (v : Viewer)
    → IsBalanced (input_active v) (input_active (on_frame now handle v).0) (on_frame now handle v).1
unfolding on_frame input_active attaches detaches
on_frame-IsBalanced now handle v = ground arith

idle-IsBalanced : (b : Bool) → IsBalanced b b []
unfolding attaches detaches
idle-IsBalanced b = refl

step-IsBalanced :
    (now : ℕ) (e : ViewerEvent) (v : Viewer)
    → IsBalanced (input_active v) (input_active (step now e v).0) (step now e v).1
unfolding step
step-IsBalanced now (set_stream s) v = rendered-IsBalanced now v _
step-IsBalanced now (set_role r) v = rendered-IsBalanced now v _
step-IsBalanced now (set_status s) v = rendered-IsBalanced now v _
step-IsBalanced now session_reset v = rendered-IsBalanced now v _
step-IsBalanced now (frame handle) v = on_frame-IsBalanced now handle v
step-IsBalanced now toggle_fullscreen v = ground (
  arith,
  rendered-IsBalanced now v (record v { wants_full = not v.wants_full }),
  idle-IsBalanced (input_active v),
)
step-IsBalanced now entered_fullscreen v = rendered-IsBalanced now v _
step-IsBalanced now left_fullscreen v = rendered-IsBalanced now v _
step-IsBalanced now refused_fullscreen v = rendered-IsBalanced now v _
step-IsBalanced now _ v = unfold input_active attaches detaches in ground arith

mounted-IsBalanced :
    (now : ℕ) (stream : Option Text)
    → attaches (mounted now stream).1
      ≡ detaches (mounted now stream).1 + bit (input_active (mounted now stream).0)
unfolding mounted
mounted-IsBalanced now stream =
    let inactive : input_active blank ≡ false = unfold input_active in refl in
    let after = record blank { stream = stream; listening = has_stream stream } in
    ground (arith, rendered-IsBalanced now blank after, inactive)

-- Whatever happens to the viewer, input is captured exactly while this device is the client of a
-- connected session and there is a stream: each capture that was attached has been detached, but
-- for the one of such a moment.
pub captures_are_balanced :
    (now : ℕ) (stream : Option Text) (past : List (ℕ × ViewerEvent))
    → attaches (run now stream past).1
      ≡ detaches (run now stream past).1 + bit (input_active (run now stream past).0)
unfolding run
captures_are_balanced now stream [] = omega (arith, mounted-IsBalanced now stream)
captures_are_balanced now stream ((at, e) ∷ past) =
    let (v, commands) = run now stream past in
    omega (
      arith,
      attaches-append commands (step at e v).1,
      detaches-append commands (step at e v).1,
      step-IsBalanced at e v,
      captures_are_balanced now stream past,
    )
