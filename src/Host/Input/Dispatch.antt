-- ===== src/Host/Input/Dispatch.antt =====
-- electron/services/RemoteInputService.ts.
pub mod Keyboard
pub mod Mouse
use lantern_remote.Common.{
  text, List, Bool, true, false, not, Option, none, some, Text, if◌then◌else◌,
}
use lantern_remote.Value.{Number, finite, Value, is_finite, ge_zero, le_whole}
use lantern_remote.Shared.RemoteInput.{
  mouse_move_text, mouse_button_text, mouse_wheel_text, keyboard_text, RemoteInputMessage,
  mouse_move, mouse_button, mouse_wheel, keyboard, KeyEvent, keydown, keyup, RemoteInputRequest,
  parse_remote_input_request,
}
use lantern_remote.Shared.RemoteInput.Geometry.{Doubles, denormalize}
use lantern_remote.Host.Input.Adapter.{runs, idle, rejected, RemoteInputAdapter, Reply}

-- What the adapter is asked to do; `none` for a malformed request.
abbrev pub perform : (f : Doubles) → RemoteInputAdapter → Option RemoteInputRequest → Option Reply
perform f adapter none = none
perform f adapter (some request) =
    let at_x = denormalize f request.display_width in
    let at_y = denormalize f request.display_height in
    elim request.message [
      | mouse_move x y ↦ some (adapter.move_mouse (at_x x) (at_y y))
      | mouse_button event button x y ↦ some (adapter.mouse_button button event (at_x x) (at_y y))
      | mouse_wheel dx dy x y ↦ some (adapter.mouse_wheel dx dy (at_x x) (at_y y))
      | keyboard event key code ↦ elim event [
        | keydown ↦ some (adapter.key_down code)
        | keyup ↦ some (adapter.key_up code)
      ]
    ]

unfoldable pub dispatch : (f : Doubles) → RemoteInputAdapter → Value → Option Reply
dispatch f adapter raw = perform f adapter (parse_remote_input_request raw)

pub record DispatchResult : Type 0 where
  pub ok : Bool
  pub kind : Option Text
  pub reason : Option Text

abbrev pub kind_of : RemoteInputMessage → Text
kind_of (mouse_move x y) = mouse_move_text
kind_of (mouse_button event button x y) = mouse_button_text
kind_of (mouse_wheel delta_x delta_y x y) = mouse_wheel_text
kind_of (keyboard event key code) = keyboard_text

abbrev pub request_kind : Option RemoteInputRequest → Option Text
request_kind none = none
request_kind (some request) = some (kind_of request.message)

abbrev pub malformed_reason : Text
unfolding text
malformed_reason = text "Malformed remote input request."

-- `run` is the message of the error that a command ends with, if it fails.
abbrev pub failure : (run : List Text → Option Text) → Option Reply → Option Text
failure run none = some malformed_reason
failure run (some (rejected reason)) = some reason
failure run (some idle) = none
failure run (some (runs args)) = run args

abbrev pub result_of : Option Text → Option Text → DispatchResult
result_of kind none = record { ok = true; kind = kind; reason = none }
result_of kind (some reason) = record { ok = false; kind = kind; reason = some reason }

-- What the caller of `dispatch` gets.
unfoldable pub dispatch_result :
    (run : List Text → Option Text) (f : Doubles) → RemoteInputAdapter → Value → DispatchResult
unfolding dispatch
dispatch_result run f adapter raw =
    result_of (request_kind (parse_remote_input_request raw)) (failure run (dispatch f adapter raw))
