-- ===== src/Client/Capture/Sent.antt =====
-- src/services/RemoteInputService.ts: every message of a capture is one for the host's validator.
use lantern_remote.Common.{
  ℕ, ◌≡◌, refl, Bool, true, not, ◌&&◌, List, [], ◌∷◌, Option, none, some, Text, arith, inl, inr,
  every, every-keep_by, ◌==◌,
}
use lantern_remote.Common.{subst, sym, Option-cases}
use lantern_remote.Value.{Number}
use lantern_remote.Shared.RemoteInput.{
  in_unit, KeyEvent, keydown, keyup, ButtonEvent, down, up, MouseButton,
}
use lantern_remote.Shared.RemoteInput.Validity.{IsValid}
use lantern_remote.Shared.RemoteInput.Geometry.{Doubles}
use lantern_remote.Shared.RemoteInput.Pixels.{normalize_point-in_unit}
use lantern_remote.Client.Capture.Valid.{
  IsSendable, AreSendable, listed, held-add, sendable-release, key_message-IsValid,
  key_message-eq_some,
}
use lantern_remote.Client.Capture.{
  Point, View, Moment, prevent_default, send, Capture, CaptureEvent, on_mouse_move, on_mouse_down,
  on_mouse_up, on_wheel, on_context_menu, on_key_down, on_key_up, on_blur, on_timer, flush_move,
  timer_fires, key_message, key_down, key_up, flush_held_keys, detach, frame_point, mouse_moves,
  button_effects, wheel_effects, step, run, to_button,
}

-- A point in the unit square, if there is one.
abbrev in_square : Option Point → Bool
in_square none = true
in_square (some (x, y)) = in_unit x && in_unit y

sendable-flush :
    (m : Moment) (s : Capture) → in_square s.pending_move ≡ true → AreSendable (flush_move m s).1
unfolding flush_move
sendable-flush m s h = elim (Option-cases s.pending_move) [
  | inl e ↦ rw e tt
  | inr ((x, y), e) ↦ rw e (ground (arith, h, e))
]

sendable-key :
    (event : KeyEvent) (key code : Text)
    → AreSendable (elim (key_message event key code) [
      | none ↦ []
      | some message ↦ prevent_default ∷ send message ∷ []
    ])
sendable-key event key code = elim (Option-cases (key_message event key code)) [
  | inl e ↦ rw e tt
  | inr (m, e) ↦ rw e (
    subst IsSendable (key_message-eq_some event key code m e).1 (
        subst IsValid (sym (key_message-eq_some event key code m e).1)
          (key_message-IsValid event key code m e)),
    tt,
  )
]

sendable-button :
    (event : ButtonEvent) (button : Option MouseButton) (p : Option Point)
    → in_square p ≡ true
    → AreSendable (button_effects event button p)
sendable-button event (some b) (some (x, y)) h = ground arith
sendable-button event (some b) none h = tt
sendable-button event none p h = tt

module _ (f : Doubles) where
  frame_point-in_square : (v : View) (cx cy : Number) → in_square (frame_point f v cx cy) ≡ true
  unfolding frame_point
  frame_point-in_square v cx cy = elim (Option-cases (frame_point f v cx cy)) [
    | inl e ↦ rw e refl
    | inr ((x, y), e) ↦ rw e (ground (arith, normalize_point-in_unit f v.element v.frame _ _ x y e))
  ]

  -- What a capture keeps is what it may send.
  abbrev pub is_sound : Capture → Bool
  is_sound s = every listed s.held_keys && in_square s.pending_move

  pressed-is_sound :
      (m : Moment) (key code : Text) (s : Capture)
      → is_sound s ≡ true
      → is_sound (key_down m key code s).0 ≡ true
  unfolding key_down key_message
  pressed-is_sound m key code s h = ground (arith, held-add code s.held_keys)

  step-is_sound :
      (m : Moment) (e : CaptureEvent) (s : Capture)
      → is_sound s ≡ true
      → is_sound (step f m e s).0 ≡ true
  unfolding step mouse_moves timer_fires flush_move key_up flush_held_keys
  step-is_sound m (on_key_down key code) s h = pressed-is_sound m key code s h
  step-is_sound m (on_key_up key code) s h =
      ground (arith, every-keep_by listed (λ c. not (code == c)) s.held_keys)
  step-is_sound m (on_mouse_move x y) s h = ground (arith, frame_point-in_square m.view x y)
  step-is_sound m e s h = ground arith

  pub run-is_sound : (events : List (Moment × CaptureEvent)) → is_sound (run f events) ≡ true
  unfolding run
  run-is_sound [] = refl
  run-is_sound ((m, e) ∷ past) = step-is_sound m e (run f past) (run-is_sound past)

  sendable-wheel :
      (dx dy : Number) (mode : ℕ) (p : Option Point)
      → in_square p ≡ true
      → AreSendable (wheel_effects f dx dy mode p)
  sendable-wheel dx dy mode none h = tt
  sendable-wheel dx dy mode (some (x, y)) h = ground arith

  sendable-moves :
      (m : Moment) (p : Option Point) (s : Capture)
      → in_square p ≡ true
      → AreSendable (mouse_moves f m p s).1
  unfolding mouse_moves
  sendable-moves m none s h = tt
  sendable-moves m (some q) s h =
      ground (arith, sendable-flush m (record s { pending_move = some q; trailing_timer = none }))

  sendable-timer :
      (m : Moment) (s : Capture) → in_square s.pending_move ≡ true → AreSendable (timer_fires m s).1
  unfolding timer_fires
  sendable-timer m s h = ground (arith, sendable-flush m s)

  step-AreSendable :
      (m : Moment) (e : CaptureEvent) (s : Capture)
      → is_sound s ≡ true
      → AreSendable (step f m e s).1
  unfolding step key_down key_up flush_held_keys
  step-AreSendable m (on_mouse_move x y) s h =
      sendable-moves m (frame_point f m.view x y) s (frame_point-in_square m.view x y)
  step-AreSendable m (on_mouse_down b x y) s h =
      sendable-button down (to_button b) (frame_point f m.view x y)
        (frame_point-in_square m.view x y)
  step-AreSendable m (on_mouse_up b x y) s h =
      sendable-button up (to_button b) (frame_point f m.view x y) (frame_point-in_square m.view x y)
  step-AreSendable m (on_wheel dx dy mode x y) s h =
      sendable-wheel dx dy mode (frame_point f m.view x y) (frame_point-in_square m.view x y)
  step-AreSendable m on_context_menu s h = tt
  step-AreSendable m (on_key_down key code) s h = ground (arith, sendable-key keydown key code)
  step-AreSendable m (on_key_up key code) s h = sendable-key keyup key code
  step-AreSendable m on_blur s h = sendable-release s.held_keys (ground arith)
  step-AreSendable m on_timer s h = sendable-timer m s (ground arith)

  -- Whatever has happened to one attached capture, every message that it sends at the next event, or
  -- when it is detached, is valid, but that the deltas of a wheel may be out of bounds.
  pub sent_is_valid :
      (events : List (Moment × CaptureEvent)) (m : Moment) (e : CaptureEvent)
      → AreSendable (step f m e (run f events)).1 × AreSendable (detach (run f events)).1
  unfolding detach flush_held_keys
  sent_is_valid events m e =
      let sound = run-is_sound events in
      (
        step-AreSendable m e (run f events) sound,
        sendable-release (run f events).held_keys (ground arith),
      )
