-- ===== src/Shared/RemoteInput/Validity.antt =====
-- What the validator lets through, and that a valid message passes it unchanged.
use lantern_remote.Common.{
  ◌≤◌, ◌<◌, ◌≡◌, refl, ◌↔◌, true, some, arith, length, Text-discrete, text, Bool-cases, ◌==◌, inl,
  inr,
}
use lantern_remote.Value.{Number, Value, object, Fields, read}
use lantern_remote.Shared.RemoteInput.Keys.{keyboard_code_whitelist, has}
use lantern_remote.Shared.RemoteInput.{
  MouseButton, left, middle, right, ButtonEvent, down, up, click, double_click, KeyEvent, keydown,
  keyup, RemoteInputMessage, mouse_move, mouse_button, mouse_wheel, keyboard, max_key_length,
  button_text, button_event_text, key_event_text, to_button, to_button_event, to_key_event, in_unit,
  in_delta, parse_move, parse_button, parse_wheel, parse_keyboard, parse_remote_input_message,
  RemoteInputRequest, is_dimension, parse_remote_input_request, encode_message, encode_request,
  parse_kind, mouse_move_text, mouse_button_text, mouse_wheel_text, keyboard_text, string,
}

abbrev pub IsPoint : Number → Number → Type 0
IsPoint x y = (in_unit x ≡ true) × (in_unit y ≡ true)

-- Coordinates in the unit interval, bounded wheel deltas, a short key name and a listed key code.
abbrev pub IsValid : RemoteInputMessage → Type 0
IsValid (mouse_move x y) = IsPoint x y
IsValid (mouse_button event button x y) = IsPoint x y
IsValid (mouse_wheel delta_x delta_y x y) =
    (in_delta delta_x ≡ true) × (in_delta delta_y ≡ true) × IsPoint x y
IsValid (keyboard event key code) =
    (0 < length key) × (length key ≤ max_key_length) × (has code keyboard_code_whitelist ≡ true)

abbrev pub IsValidRequest : RemoteInputRequest → Type 0
IsValidRequest r =
    IsValid r.message
    × (is_dimension r.display_width ≡ true)
    × (is_dimension r.display_height ≡ true)

to_button_self : (b : MouseButton) → to_button (button_text b) ≡ some b
unfolding to_button button_text Text-discrete
to_button_self left = refl
to_button_self middle = refl
to_button_self right = refl

to_button_event_self : (e : ButtonEvent) → to_button_event (button_event_text e) ≡ some e
unfolding to_button_event button_event_text Text-discrete
to_button_event_self down = refl
to_button_event_self up = refl
to_button_event_self click = refl
to_button_event_self double_click = refl

to_key_event_self : (e : KeyEvent) → to_key_event (key_event_text e) ≡ some e
unfolding to_key_event key_event_text Text-discrete
to_key_event_self keydown = refl
to_key_event_self keyup = refl

pub parse-encode :
    (m : RemoteInputMessage) → IsValid m → parse_remote_input_message (encode_message m) ≡ some m
unfolding parse_remote_input_message encode_message read Text-discrete text
parse-encode (mouse_move x y) v = ground arith
parse-encode (mouse_button e b x y) v = rw (to_button_event_self e, to_button_self b) (ground arith)
parse-encode (mouse_wheel dx dy x y) v = ground arith
parse-encode (keyboard e key code) v = rw (to_key_event_self e) (ground arith)

parse_move_sound : (fs : Fields) (m : RemoteInputMessage) → parse_move fs ≡ some m → IsValid m
unfolding parse_move
parse_move_sound fs (mouse_move x y) h = ground arith
parse_move_sound fs m h = ground arith

parse_button_sound : (fs : Fields) (m : RemoteInputMessage) → parse_button fs ≡ some m → IsValid m
unfolding parse_button
parse_button_sound fs (mouse_button e b x y) h = ground arith
parse_button_sound fs m h = ground arith

parse_wheel_sound : (fs : Fields) (m : RemoteInputMessage) → parse_wheel fs ≡ some m → IsValid m
unfolding parse_wheel
parse_wheel_sound fs (mouse_wheel a b x y) h = ground arith
parse_wheel_sound fs m h = ground arith

parse_keyboard_sound :
    (fs : Fields) (m : RemoteInputMessage) → parse_keyboard fs ≡ some m → IsValid m
unfolding parse_keyboard
parse_keyboard_sound fs (keyboard e key code) h = ground arith
parse_keyboard_sound fs m h = ground arith

parse_kind_sound :
    (fs : Fields) (kind : Value) (m : RemoteInputMessage) → parse_kind fs kind ≡ some m → IsValid m
parse_kind_sound fs (string kind) m h = elim (Bool-cases (kind == mouse_move_text)) [
  | inl a ↦ parse_move_sound fs m (rw a at h)
  | inr a ↦ elim (Bool-cases (kind == mouse_button_text)) [
    | inl b ↦ parse_button_sound fs m (rw (a, b) at h)
    | inr b ↦ elim (Bool-cases (kind == mouse_wheel_text)) [
      | inl c ↦ parse_wheel_sound fs m (rw (a, b, c) at h)
      | inr c ↦ elim (Bool-cases (kind == keyboard_text)) [
        | inl d ↦ parse_keyboard_sound fs m (rw (a, b, c, d) at h)
        | inr d ↦ absurd (ground (arith, h, a, b, c, d))
      ]
    ]
  ]
]
parse_kind_sound fs _ m h = absurd (ground arith)

parse_message_sound :
    (v : Value) (m : RemoteInputMessage) → parse_remote_input_message v ≡ some m → IsValid m
unfolding parse_remote_input_message
parse_message_sound (object fs) m h = parse_kind_sound fs (read "kind" fs) m h
parse_message_sound _ m h = absurd (ground arith)

-- The messages that the validator can let through are exactly the valid ones: coordinates in the
-- unit interval, bounded wheel deltas, key names of 1 to 32 code units and listed key codes.
pub parse_message_iff :
    (m : RemoteInputMessage) → ((v : Value) × (parse_remote_input_message v ≡ some m)) ↔ IsValid m
parse_message_iff m =
    (λ (v, h). parse_message_sound v m h, λ valid. (encode_message m, parse-encode m valid))

request_fields_sound :
    (fs : Fields) (r : RemoteInputRequest)
    → parse_remote_input_request (object fs) ≡ some r
    → (parse_remote_input_message (read "message" fs) ≡ some r.message)
      × (is_dimension r.display_width ≡ true)
      × (is_dimension r.display_height ≡ true)
unfolding parse_remote_input_request
request_fields_sound fs r h = ground arith

-- A request that the main process accepts has a valid message and a display of 1 to 16384 pixels
-- each way.
pub parse_request_sound :
    (v : Value) (r : RemoteInputRequest) → parse_remote_input_request v ≡ some r → IsValidRequest r
unfolding parse_remote_input_request
parse_request_sound (object fs) r h =
    let (m, w, k) = request_fields_sound fs r h in
    (parse_message_sound (read "message" fs) r.message m, w, k)
parse_request_sound _ r h = absurd (ground arith)

-- What the renderer sends for a valid request, the main process accepts unchanged.
pub parse-encode_request :
    (r : RemoteInputRequest)
    → IsValidRequest r
    → parse_remote_input_request (encode_request r) ≡ some r
unfolding parse_remote_input_request encode_request read
parse-encode_request r (m, w, k) = rw (parse-encode r.message m) (ground arith)
