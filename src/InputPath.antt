-- ===== src/InputPath.antt =====
-- The way of an input message: the capture of the client (src/services/RemoteInputService.ts), the
-- channel, the renderer of the host (forwardToHost) and its main process
-- (electron/services/RemoteInputService.ts).
mod Tests
use lantern_remote.Common.{
  ◌≡◌, refl, Bool, true, ◌&&◌, List, [], ◌∷◌, Option, none, some, Text, arith, subst,
}
use lantern_remote.Value.{Number, Value}
use lantern_remote.Shared.RemoteInput.{
  RemoteInputMessage, mouse_move, mouse_button, mouse_wheel, keyboard, RemoteInputRequest,
  encode_message, encode_request, in_delta, is_dimension, parse_remote_input_message,
  parse_remote_input_request, ButtonEvent, MouseButton, keydown, keyup,
}
use lantern_remote.Shared.RemoteInput.Validity.{IsValid, parse-encode, parse-encode_request}
use lantern_remote.Shared.RemoteInput.Geometry.{Doubles, denormalize}
use lantern_remote.Client.Store.{DisplaySize}
use lantern_remote.Client.RemoteInput.{forward_to_host}
use lantern_remote.Client.Capture.{Moment, CaptureEvent, Effect, prevent_default, send, step, run}
use lantern_remote.Client.Capture.Valid.{IsSendable, AreSendable}
use lantern_remote.Client.Capture.Sent.{sent_is_valid}
use lantern_remote.Host.Input.Adapter.{RemoteInputAdapter, Reply}
use lantern_remote.Host.Input.Dispatch.{dispatch, perform}

-- The message is sent among these effects.
pub data Sends (m : RemoteInputMessage) : List Effect → Type 0 where
  here : {rest : List Effect} → Sends m (send m ∷ rest)
  there : {e : Effect} {rest : List Effect} → Sends m rest → Sends m (e ∷ rest)

sent-IsSendable :
    (m : RemoteInputMessage) (es : List Effect) → AreSendable es → Sends m es → IsSendable m
sent-IsSendable m [] rest s = elim s [ ]
sent-IsSendable m (send m' ∷ es) (a, rest) here = a
sent-IsSendable m (send m' ∷ es) (a, rest) (there s) = sent-IsSendable m es rest s
sent-IsSendable m (prevent_default ∷ es) rest (there s) = sent-IsSendable m es rest s

-- The deltas of a wheel are within their bound.
abbrev pub deltas_fit : RemoteInputMessage → Bool
deltas_fit (mouse_wheel delta_x delta_y x y) = in_delta delta_x && in_delta delta_y
deltas_fit m = true

fitting-IsValid : (m : RemoteInputMessage) → deltas_fit m ≡ true → IsSendable m → IsValid m
fitting-IsValid (mouse_move x y) h s = s
fitting-IsValid (mouse_button event button x y) h s = s
fitting-IsValid (mouse_wheel dx dy x y) h s = ground arith
fitting-IsValid (keyboard event key code) h s = s

-- The request that the host's renderer makes of a message.
abbrev pub request_of :
    (round : Number → Number) → DisplaySize → RemoteInputMessage → RemoteInputRequest
request_of round display m = record {
  message = m;
  display_width = round display.width;
  display_height = round display.height;
}

-- What a message asks of an adapter, on a display of a width and a height, and its reply: a pointer is
-- put at its place in the frame, a button or a key goes down or up as the message says.
pub data Performs (f : Doubles) (adapter : RemoteInputAdapter) (width height : Number)
    : RemoteInputMessage → Reply → Type 0 where
  moves :
      (x y : Number)
      → Performs f adapter width height
          (mouse_move x y)
          (adapter.move_mouse (denormalize f width x) (denormalize f height y))
  clicks :
      (event : ButtonEvent) (button : MouseButton) (x y : Number)
      → Performs f adapter width height
          (mouse_button event button x y)
          (adapter.mouse_button button event (denormalize f width x) (denormalize f height y))
  scrolls :
      (delta_x delta_y x y : Number)
      → Performs f adapter width height
          (mouse_wheel delta_x delta_y x y)
          (adapter.mouse_wheel delta_x delta_y (denormalize f width x) (denormalize f height y))
  key_pressed :
      (key code : Text)
      → Performs f adapter width height (keyboard keydown key code) (adapter.key_down code)
  key_released :
      (key code : Text)
      → Performs f adapter width height (keyboard keyup key code) (adapter.key_up code)

-- A request that arrives is performed.
abbrev pub IsPerformed : Doubles → RemoteInputAdapter → RemoteInputRequest → Type 0
IsPerformed f adapter r =
    (reply : Reply) × (dispatch f adapter (encode_request r) ≡ some reply)
    × Performs f adapter r.display_width r.display_height r.message reply

perform-Performs :
    (f : Doubles) (adapter : RemoteInputAdapter) (m : RemoteInputMessage) (width height : Number)
    → (reply : Reply) × (perform f adapter
          (some (record { message = m; display_width = width; display_height = height }))
        ≡ some reply)
      × Performs f adapter width height m reply
perform-Performs f adapter (mouse_move x y) width height = (_, refl, moves x y)
perform-Performs f adapter (mouse_button event button x y) width height =
    (_, refl, clicks event button x y)
perform-Performs f adapter (mouse_wheel dx dy x y) width height = (_, refl, scrolls dx dy x y)
perform-Performs f adapter (keyboard keydown key code) width height =
    (_, refl, key_pressed key code)
perform-Performs f adapter (keyboard keyup key code) width height = (_, refl, key_released key code)

module _ (f : Doubles) (adapter : RemoteInputAdapter) (parse_json : Text → Option Value)
    (stringify : Value → Text) (round : Number → Number) where
  forwarded :
      (display : DisplaySize) (m : RemoteInputMessage)
      → IsValid m
      → parse_json (stringify (encode_message m)) ≡ some (encode_message m)
      → forward_to_host parse_json round (stringify (encode_message m)) (some display)
        ≡ some (request_of round display m)
  unfolding forward_to_host
  forwarded display m v j = rw (j, parse-encode m v) refl

  performed :
      (r : RemoteInputRequest)
      → parse_remote_input_request (encode_request r) ≡ some r
      → IsPerformed f adapter r
  unfolding dispatch
  performed r h =
      let (reply, e, p) = perform-Performs f adapter r.message r.display_width r.display_height in
      (reply, rw h e, p)

  -- Every message that a capture sends, but for a wheel whose deltas are out of bounds, is forwarded by
  -- the host's renderer, and its main process asks of the adapter what the message says: a pointer or a
  -- wheel at its place on the display, the button and what it does, the key's code down or up. The
  -- display has 1 to 16384 whole pixels each way, and JSON keeps the message.
  pub sent-IsPerformed :
      (events : List (Moment × CaptureEvent)) (now : Moment) (e : CaptureEvent)
      (m : RemoteInputMessage) (display : DisplaySize)
      → Sends m (step f now e (run f events)).1
      → deltas_fit m ≡ true
      → is_dimension (round display.width) ≡ true
      → is_dimension (round display.height) ≡ true
      → parse_json (stringify (encode_message m)) ≡ some (encode_message m)
      → (forward_to_host parse_json round (stringify (encode_message m)) (some display)
          ≡ some (request_of round display m))
        × IsPerformed f adapter (request_of round display m)
  sent-IsPerformed events now e m display s d w h j =
      let valid =
        fitting-IsValid m d
          (sent-IsSendable m (step f now e (run f events)).1 (sent_is_valid f events now e).0 s) in
      (
        forwarded display m valid j,
        performed (request_of round display m)
            (parse-encode_request (request_of round display m) (valid, w, h)),
      )
