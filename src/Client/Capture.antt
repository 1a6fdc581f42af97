-- ===== src/Client/Capture.antt =====
-- src/services/RemoteInputService.ts: what one attached capture does with the events of the video,
-- of the window and of its timer.
pub mod Keys
pub mod Moves
pub mod Valid
pub mod Sent
use lantern_remote.Common.{
  ℕ, ◌+◌, Bool, true, false, not, List, [], ◌∷◌, ◌++◌, map, Option, none, some, Text, text, leb,
  eqb, ◌==◌, keep, take, if◌then◌else◌, ◌-◌,
}
use lantern_remote.Value.{Number, finite}
use lantern_remote.Shared.RemoteInput.{
  RemoteInputMessage, mouse_move, mouse_button, mouse_wheel, keyboard, MouseButton, left, middle,
  right, ButtonEvent, down, up, KeyEvent, keydown, keyup, max_key_length,
}
use lantern_remote.Shared.RemoteInput.Keys.{keyboard_code_whitelist, has}
use lantern_remote.Shared.RemoteInput.Geometry.{Doubles, FrameSize, normalize_point}

abbrev pub move_throttle_ms : ℕ
move_throttle_ms = 33

abbrev pub line_in_pixels : Number
line_in_pixels = finite false 16 0

abbrev pub page_in_pixels : Number
page_in_pixels = finite false 800 0

abbrev pub Point : Type 0
Point = Number × Number

-- `toButton`
abbrev pub to_button : ℕ → Option MouseButton
to_button button =
    if eqb button 0
    then some left
    else (if eqb button 1 then some middle else (if eqb button 2 then some right else none))

-- The sizes of the video element and of its frames, and the corner of the element.
pub record View : Type 0 where
  pub element : FrameSize
  pub frame : FrameSize
  pub left_edge : Number
  pub top_edge : Number

-- What the browser says while one event is handled: `Date.now()`, whether the channel takes what is
-- sent, and where the video is.
pub record Moment : Type 0 where
  pub now : ℕ
  pub sends : Bool
  pub view : View

pub data Effect : Type 0 where
  prevent_default : Effect
  send : RemoteInputMessage → Effect

-- The variables of `attachCapture`, its timer by the time at which it is due, and the service's
-- `heldKeys`, the latest last.
pub record Capture : Type 0 where
  pub last_move_at : ℕ
  pub trailing_timer : Option ℕ
  pub pending_move : Option Point
  pub held_keys : List Text

pub data CaptureEvent : Type 0 where
  on_mouse_move : (client_x client_y : Number) → CaptureEvent
  on_mouse_down on_mouse_up : (button : ℕ) → (client_x client_y : Number) → CaptureEvent
  on_wheel : (delta_x delta_y : Number) → (mode : ℕ) → (client_x client_y : Number) → CaptureEvent
  on_context_menu : CaptureEvent
  on_key_down on_key_up : (key code : Text) → CaptureEvent
  on_blur on_timer : CaptureEvent

-- `set.add` and `set.delete`
abbrev pub add : Text → List Text → List Text
add code codes = if has code codes then codes else codes ++ (code ∷ [])

abbrev pub delete : Text → List Text → List Text
delete code codes = keep (λ c. not (code == c)) codes

abbrev pub attached : (held : List Text) → Capture
attached held = record {
  last_move_at = 0;
  trailing_timer = none;
  pending_move = none;
  held_keys = held;
}

-- `flushMove`
unfoldable pub flush_move : Moment → Capture → Capture × List Effect
flush_move m s = elim s.pending_move [
  | none ↦ (record s { trailing_timer = none }, [])
  | some (x, y) ↦ (
    record s { trailing_timer = none; pending_move = none; last_move_at = m.now },
    send (mouse_move x y) ∷ [],
  )
]

-- When a timer of `MOVE_THROTTLE_MS - (now - lastMoveAt)` is due, for a move that comes too early.
abbrev pub move_due : Moment → Capture → ℕ
move_due m s = m.now + (s.last_move_at + move_throttle_ms - m.now)

-- The callback of `setTimeout`, whatever the clock says; one that has been cleared does not run.
unfoldable pub timer_fires : Moment → Capture → Capture × List Effect
unfolding flush_move
timer_fires m s = elim s.trailing_timer [ none ↦ (s, []) | some due ↦ flush_move m s ]

abbrev pub key_name : (key code : Text) → Text
key_name [] code = code
key_name (c ∷ cs) code = take max_key_length (c ∷ cs)

-- `keyMessage`
unfoldable pub key_message : KeyEvent → (key code : Text) → Option RemoteInputMessage
key_message event key code =
    if not (has code keyboard_code_whitelist)
    then none
    else some (keyboard event (key_name key code) code)

unfoldable pub key_down : Moment → (key code : Text) → Capture → Capture × List Effect
unfolding key_message
key_down m key code s = elim (key_message keydown key code) [
  | none ↦ (s, [])
  | some message ↦ (
    if m.sends then record s { held_keys = add code s.held_keys } else s,
    prevent_default ∷ send message ∷ [],
  )
]

unfoldable pub key_up : (key code : Text) → Capture → Capture × List Effect
unfolding key_message
key_up key code s = (
  record s { held_keys = delete code s.held_keys },
  elim (key_message keyup key code) [
    | none ↦ []
    | some message ↦ prevent_default ∷ send message ∷ []
  ],
)

abbrev pub release : Text → Effect
release code = send (keyboard keyup code code)

-- `flushHeldKeys`
unfoldable pub flush_held_keys : Capture → Capture × List Effect
flush_held_keys s = (record s { held_keys = [] }, map release s.held_keys)

-- The function that `attachCapture` returns.
unfoldable pub detach : Capture → Capture × List Effect
unfolding flush_held_keys
detach s = flush_held_keys (record s { trailing_timer = none })

-- `buttonAt` and the sending of its message.
abbrev pub button_effects : ButtonEvent → Option MouseButton → Option Point → List Effect
button_effects event (some button) (some (x, y)) = send (mouse_button event button x y) ∷ []
button_effects event _ _ = []

module _ (f : Doubles) where
  -- `toPixels`
  abbrev pub to_pixels : Number → (mode : ℕ) → Number
  to_pixels delta mode =
      if eqb mode 1
      then f.mul delta line_in_pixels
      else (if eqb mode 2 then f.mul delta page_in_pixels else delta)

  -- `framePoint`
  unfoldable pub frame_point : View → (client_x client_y : Number) → Option Point
  frame_point v client_x client_y =
      normalize_point f v.element v.frame (f.sub client_x v.left_edge) (f.sub client_y v.top_edge)

  unfoldable pub mouse_moves : Moment → Option Point → Capture → Capture × List Effect
  unfolding flush_move
  mouse_moves m none s = (s, [])
  mouse_moves m (some p) s =
      let pending = record s { pending_move = some p } in
      if leb (s.last_move_at + move_throttle_ms) m.now
      then flush_move m (record pending { trailing_timer = none })
      else elim s.trailing_timer [
        | some due ↦ (pending, [])
        | none ↦ (record pending { trailing_timer = some (move_due m s) }, [])
      ]

  abbrev pub wheel_effects : (delta_x delta_y : Number) (mode : ℕ) → Option Point → List Effect
  wheel_effects delta_x delta_y mode none = prevent_default ∷ []
  wheel_effects delta_x delta_y mode (some (x, y)) =
      prevent_default
      ∷ send (mouse_wheel (to_pixels delta_x mode) (to_pixels delta_y mode) x y)
      ∷ []

  unfoldable pub step : Moment → CaptureEvent → Capture → Capture × List Effect
  unfolding frame_point mouse_moves timer_fires key_down key_up flush_held_keys
  step m (on_mouse_move x y) s = mouse_moves m (frame_point m.view x y) s
  step m (on_mouse_down button x y) s =
      (s, button_effects down (to_button button) (frame_point m.view x y))
  step m (on_mouse_up button x y) s =
      (s, button_effects up (to_button button) (frame_point m.view x y))
  step m (on_wheel dx dy mode x y) s = (s, wheel_effects dx dy mode (frame_point m.view x y))
  step m on_context_menu s = (s, prevent_default ∷ [])
  step m (on_key_down key code) s = key_down m key code s
  step m (on_key_up key code) s = key_up key code s
  step m on_blur s = flush_held_keys s
  step m on_timer s = timer_fires m s

  -- One attached capture after the events of a list, the last one first.
  unfoldable pub run : List (Moment × CaptureEvent) → Capture
  run [] = attached []
  run ((m, e) ∷ past) = (step m e (run past)).0
