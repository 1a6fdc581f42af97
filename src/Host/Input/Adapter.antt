-- ===== src/Host/Input/Adapter.antt =====
-- electron/services/input/RemoteInputAdapter.ts and WindowsInputAdapter.ts. An operation gives the
-- arguments of the command that it runs, if it runs one, or is rejected with a reason. Numbers
-- arrive in the runtime's doubles.
use lantern_remote.Common.{Bool, false, List, Text, text}
use lantern_remote.Value.{Number}
use lantern_remote.Shared.RemoteInput.{MouseButton, ButtonEvent}

pub data Reply : Type 0 where
  runs : (args : List Text) → Reply
  idle : Reply
  rejected : (reason : Text) → Reply

pub record RemoteInputAdapter : Type 0 where
  pub supported : Bool
  pub move_mouse : (x y : Number) → Reply
  pub mouse_button : MouseButton → ButtonEvent → (x y : Number) → Reply
  pub mouse_wheel : (delta_x delta_y x y : Number) → Reply
  pub key_down : (code : Text) → Reply
  pub key_up : (code : Text) → Reply

abbrev pub windows_reason : Text
unfolding text
windows_reason =
    text
      "Remote input is not available on Windows yet. A SendInput backend is planned; the protocol, validation, and dispatch layers are ready."

abbrev pub windows_adapter : RemoteInputAdapter
windows_adapter = record {
  supported = false;
  move_mouse = λ x y. rejected windows_reason;
  mouse_button = λ button event x y. rejected windows_reason;
  mouse_wheel = λ dx dy x y. rejected windows_reason;
  key_down = λ code. rejected windows_reason;
  key_up = λ code. rejected windows_reason;
}
