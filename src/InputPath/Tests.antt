-- ===== src/InputPath/Tests.antt =====
-- The theorem of the input's way at a key that is pressed.
use lantern_remote.Dict.{get}
use lantern_remote.Host.Input.Linux.{linux_adapter}
use lantern_remote.Common.{◌≡◌, refl, true, [], Option, some, Text, text, Text-discrete, false, ◌∷◌}
use lantern_remote.Value.{Number, Value, finite, read}
use lantern_remote.Shared.RemoteInput.{
  RemoteInputMessage, keyboard, keydown, encode_message, encode_request, parse_remote_input_request,
  parse_remote_input_message, to_key_event,
}
use lantern_remote.Shared.RemoteInput.Keys.{keyboard_code_whitelist}
use lantern_remote.Shared.RemoteInput.Geometry.{Doubles, FrameSize, one_number}
use lantern_remote.Client.Store.{DisplaySize}
use lantern_remote.Client.RemoteInput.{forward_to_host}
use lantern_remote.Client.Capture.{Moment, on_key_down, step, run, key_down, key_message}
use lantern_remote.Host.Input.Adapter.{RemoteInputAdapter, runs}
use lantern_remote.Host.Input.Dispatch.{dispatch}
use lantern_remote.InputPath.{
  Sends, here, there, request_of, sent-IsPerformed, IsPerformed, parse_remote_input_request,
  parse_remote_input_message,
}
use lantern_remote.Host.Input.LinuxKeymap.{keymap}
use lantern_remote.Dict.{put}

abbrev doubles : Doubles
doubles = record { mul = λ a b. a; div = λ a b. a; sub = λ a b. a }

abbrev key : Text
unfolding text
key = text "KeyA"

abbrev pressed : RemoteInputMessage
pressed = keyboard keydown key key

abbrev print : Value → Text
print v = []

abbrev parse : Text → Option Value
unfolding encode_message
parse s = some (encode_message pressed)

abbrev whole : Number → Number
whole n = n

abbrev display : DisplaySize
display = record { width = finite false 800 0; height = finite false 600 0 }

abbrev frame : FrameSize
frame = record { width = one_number; height = one_number }

abbrev now : Moment
now = record {
  now = 100;
  sends = true;
  view = record { element = frame; frame = frame; left_edge = one_number; top_edge = one_number };
}

abbrev linux_host : RemoteInputAdapter
linux_host = linux_adapter (λ n. []) (λ n. 1) true

-- The key goes down as xdotool names it.
key_goes_down :
    dispatch doubles linux_host (encode_request (request_of whole display pressed))
    ≡ some (runs (text "keydown" ∷ (text "a" ∷ [])))
unfolding dispatch parse_remote_input_request encode_request linux_adapter text Text-discrete
    keyboard_code_whitelist key get parse_remote_input_message read to_key_event keymap put
key_goes_down = refl

is_sent : Sends pressed (step doubles now (on_key_down key key) (run doubles [])).1
unfolding step run key_down key_message key text keyboard_code_whitelist Text-discrete
is_sent = there here

sent-IsPerformed_example :
    (forward_to_host parse whole (print (encode_message pressed)) (some display)
      ≡ some (request_of whole display pressed))
    × IsPerformed doubles linux_host (request_of whole display pressed)
unfolding parse
sent-IsPerformed_example =
    sent-IsPerformed doubles linux_host parse print whole [] now (on_key_down key key) pressed
      display is_sent refl refl refl refl
