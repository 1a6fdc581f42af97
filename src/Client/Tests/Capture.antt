-- ===== src/Client/Tests/Capture.antt =====
-- The theorems of the input capture at a concrete run.
use lantern_remote.Common.{ℕ, ◌≡◌, ◌⊎◌, refl, true, List, [], ◌∷◌, some, Text, text, Text-discrete}
use lantern_remote.Shared.RemoteInput.{mouse_move}
use lantern_remote.Shared.RemoteInput.Keys.{keyboard_code_whitelist}
use lantern_remote.Shared.RemoteInput.Geometry.{
  Doubles, FrameSize, zero_number, one_number, in_frame, normalize_point, clamp01,
}
use lantern_remote.Client.Capture.{
  View, Moment, CaptureEvent, on_mouse_move, on_key_down, on_timer, send, step, run, detach,
  frame_point, mouse_moves, flush_move, key_down, key_message, timer_fires,
}
use lantern_remote.Client.Capture.Moves.{
  spaced, move_times, moves_are_spaced, move_is_sent, is_punctual,
}
use lantern_remote.Client.Capture.Keys.{pressed, told, no_key_sticks}

-- Enough of the arithmetic for a frame of one pixel.
abbrev doubles : Doubles
doubles = record { mul = λ a b. a; div = λ a b. one_number; sub = λ a b. a }

abbrev one_pixel : FrameSize
one_pixel = record { width = one_number; height = one_number }

abbrev view : View
view = record {
  element = one_pixel;
  frame = one_pixel;
  left_edge = zero_number;
  top_edge = zero_number;
}

abbrev at_time : ℕ → Moment
at_time t = record { now = t; sends = true; view = view }

abbrev key : Text
unfolding text
key = text "KeyA"

-- A key that goes down, and a move, the last event first.
abbrev events : List (Moment × CaptureEvent)
events = (at_time 100, on_mouse_move one_number one_number) ∷ (at_time 90, on_key_down key key) ∷ []

inside : frame_point doubles view one_number one_number ≡ some (one_number, one_number)
unfolding frame_point normalize_point in_frame clamp01
inside = refl

-- Then a move that comes too early, and its timer.
abbrev late_events : List (Moment × CaptureEvent)
late_events =
    (at_time 133, on_timer) ∷ ((at_time 110, on_mouse_move one_number one_number) ∷ events)

late-is_punctual : is_punctual doubles late_events ≡ true
unfolding run step mouse_moves flush_move key_down key_message frame_point normalize_point in_frame
    clamp01 keyboard_code_whitelist text Text-discrete timer_fires
late-is_punctual = refl

two_moves : move_times doubles late_events ≡ 133 ∷ (100 ∷ [])
unfolding run step mouse_moves flush_move key_down key_message frame_point normalize_point in_frame
    clamp01 keyboard_code_whitelist text Text-discrete timer_fires
two_moves = refl

moves_are_spaced_example : spaced (move_times doubles late_events) ≡ true
moves_are_spaced_example = moves_are_spaced doubles late_events late-is_punctual

move_is_sent_example :
    ((step doubles (at_time 110) (on_mouse_move one_number one_number) (run doubles events)).1
      ≡ send (mouse_move one_number one_number) ∷ [])
    ⊎ ((step doubles
          (at_time 150)
          on_timer
          (run doubles ((at_time 110, on_mouse_move one_number one_number) ∷ events))).1
        ≡ send (mouse_move one_number one_number) ∷ [])
move_is_sent_example =
    move_is_sent doubles events (at_time 110) (at_time 150) one_number one_number one_number
      one_number inside

no_key_sticks_example :
    (pressed doubles events ≡ (run doubles events).held_keys)
    × (told (at_time 200) (detach (run doubles events)).1 (pressed doubles events) ≡ [])
no_key_sticks_example = no_key_sticks doubles events (at_time 200) refl refl
