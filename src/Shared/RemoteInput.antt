-- ===== src/Shared/RemoteInput.antt =====
-- shared/remoteInput.ts: the messages of the input channel and their validator.
pub mod Keys
pub mod Validity
pub mod Geometry
pub mod Pixels
use lantern_remote.Common.{
  ℕ, Bool, true, false, not, ◌&&◌, ◌||◌, Option, none, some, Text, text, ltb, eqb, leb, ◌==◌,
  length, ◌>>=◌, ◌>>◌, guard, if◌then◌else◌,
}
use lantern_remote.Value.{
  Number, finite, Value, string, number, object, Fields, end, field, read, as_string, is_finite,
  is_integer, ge_zero, lt_zero, le_whole, abs,
}
use lantern_remote.Shared.Signaling.{as_record}
use Keys.{keyboard_code_whitelist, has}

pub data MouseButton : Type 0 where
  left middle right : MouseButton

pub data ButtonEvent : Type 0 where
  down up click double_click : ButtonEvent

pub data KeyEvent : Type 0 where
  keydown keyup : KeyEvent

pub data RemoteInputMessage : Type 0 where
  mouse_move : (x y : Number) → RemoteInputMessage
  mouse_button : ButtonEvent → MouseButton → (x y : Number) → RemoteInputMessage
  mouse_wheel : (delta_x delta_y x y : Number) → RemoteInputMessage
  keyboard : KeyEvent → (key code : Text) → RemoteInputMessage

abbrev pub max_wheel_delta : ℕ
max_wheel_delta = 1000000

abbrev pub max_shared_dimension : ℕ
max_shared_dimension = 16384

abbrev pub max_key_length : ℕ
max_key_length = 32

-- The strings of the wire format.
abbrev pub button_text : MouseButton → Text
unfolding text
button_text left = text "left"
button_text middle = text "middle"
button_text right = text "right"

abbrev pub button_event_text : ButtonEvent → Text
unfolding text
button_event_text down = text "down"
button_event_text up = text "up"
button_event_text click = text "click"
button_event_text double_click = text "double-click"

abbrev pub key_event_text : KeyEvent → Text
unfolding text
key_event_text keydown = text "keydown"
key_event_text keyup = text "keyup"

-- `BUTTONS.has`, `BUTTON_EVENTS.has` and `KEYBOARD_EVENTS.has`, with what they have found.
pub to_button : Text → Option MouseButton
to_button s =
    if s == button_text left
    then some left
    else (if s == button_text middle
        then some middle
        else (if s == button_text right then some right else none))

pub to_button_event : Text → Option ButtonEvent
to_button_event s =
    if s == button_event_text down
    then some down
    else (if s == button_event_text up
        then some up
        else (if s == button_event_text click
            then some click
            else (if s == button_event_text double_click then some double_click else none)))

unfoldable pub to_key_event : Text → Option KeyEvent
to_key_event s =
    if s == key_event_text keydown
    then some keydown
    else (if s == key_event_text keyup then some keyup else none)

abbrev pub in_unit : Number → Bool
in_unit n = is_finite n && (ge_zero n && le_whole n 1)

abbrev pub in_delta : Number → Bool
in_delta n = is_finite n && le_whole (abs n) max_wheel_delta

-- `isUnit` and `isDelta`, with the number that they have found.
abbrev pub unit_of : Value → Option Number
unit_of (number n) = if in_unit n then some n else none
unit_of _ = none

abbrev pub delta_of : Value → Option Number
delta_of (number n) = if in_delta n then some n else none
delta_of _ = none

abbrev pub mouse_move_text : Text
unfolding text
mouse_move_text = text "mouse-move"

abbrev pub mouse_button_text : Text
unfolding text
mouse_button_text = text "mouse-button"

abbrev pub mouse_wheel_text : Text
unfolding text
mouse_wheel_text = text "mouse-wheel"

abbrev pub keyboard_text : Text
unfolding text
keyboard_text = text "keyboard"

pub parse_move : Fields → Option RemoteInputMessage
parse_move fs = do x ← unit_of (read "x" fs); y ← unit_of (read "y" fs); some (mouse_move x y)

pub parse_button : Fields → Option RemoteInputMessage
parse_button fs = do
  event_name ← as_string (read "event" fs)
  event ← to_button_event event_name
  button_name ← as_string (read "button" fs)
  button ← to_button button_name
  x ← unit_of (read "x" fs)
  y ← unit_of (read "y" fs)
  some (mouse_button event button x y)

pub parse_wheel : Fields → Option RemoteInputMessage
parse_wheel fs = do
  delta_x ← delta_of (read "deltaX" fs)
  delta_y ← delta_of (read "deltaY" fs)
  x ← unit_of (read "x" fs)
  y ← unit_of (read "y" fs)
  some (mouse_wheel delta_x delta_y x y)

pub parse_keyboard : Fields → Option RemoteInputMessage
parse_keyboard fs = do
  event_name ← as_string (read "event" fs)
  event ← to_key_event event_name
  key ← as_string (read "key" fs)
  guard (not (eqb (length key) 0))
  guard (not (ltb max_key_length (length key)))
  code ← as_string (read "code" fs)
  guard (has code keyboard_code_whitelist)
  some (keyboard event key code)

-- The branches on `kind`.
abbrev parse_kind : Fields → Value → Option RemoteInputMessage
parse_kind fs (string kind) =
    if kind == mouse_move_text
    then parse_move fs
    else (if kind == mouse_button_text
        then parse_button fs
        else (if kind == mouse_wheel_text
            then parse_wheel fs
            else (if kind == keyboard_text then parse_keyboard fs else none)))
parse_kind fs _ = none

unfoldable pub parse_remote_input_message : Value → Option RemoteInputMessage
unfolding parse_move parse_button parse_wheel parse_keyboard
parse_remote_input_message value = do fs ← as_record value; parse_kind fs (read "kind" fs)

pub record RemoteInputRequest : Type 0 where
  pub message : RemoteInputMessage
  pub display_width : Number
  pub display_height : Number

-- A positive whole number up to the limit.
abbrev pub is_dimension : Number → Bool
is_dimension n =
    is_integer n && (not (lt_zero n) && (not (le_whole n 0) && le_whole n max_shared_dimension))

abbrev pub dimension_of : Value → Option Number
dimension_of (number n) = if is_dimension n then some n else none
dimension_of _ = none

unfoldable pub parse_remote_input_request : Value → Option RemoteInputRequest
parse_remote_input_request value = do
  fs ← as_record value
  message ← parse_remote_input_message (read "message" fs)
  width ← dimension_of (read "displayWidth" fs)
  height ← dimension_of (read "displayHeight" fs)
  some (record { message = message; display_width = width; display_height = height })

-- A message as the object that is sent.
unfoldable pub encode_message : RemoteInputMessage → Value
encode_message (mouse_move x y) =
    object (field "kind" (string mouse_move_text) (field "x" (number x) (field "y" (number y) end)))
encode_message (mouse_button event button x y) = object (
    field "kind" (string mouse_button_text) (
      field "event" (string (button_event_text event)) (
        field "button" (string (button_text button))
          (field "x" (number x) (field "y" (number y) end)))))
encode_message (mouse_wheel delta_x delta_y x y) = object (
    field "kind" (string mouse_wheel_text) (
      field "x" (number x) (
        field "y" (number y)
          (field "deltaX" (number delta_x) (field "deltaY" (number delta_y) end)))))
encode_message (keyboard event key code) = object (
    field "kind" (string keyboard_text) (
      field "event" (string (key_event_text event))
        (field "key" (string key) (field "code" (string code) end))))

unfoldable pub encode_request : RemoteInputRequest → Value
unfolding encode_message
encode_request r = object (
    field "message" (encode_message r.message) (
      field "displayWidth" (number r.display_width)
        (field "displayHeight" (number r.display_height) end)))
