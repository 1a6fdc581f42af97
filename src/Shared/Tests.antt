-- ===== src/Shared/Tests.antt =====
-- The protocol's theorems at concrete texts, and runs of its functions.
use lantern_remote.Common.{
  ◌≡◌, refl, true, false, [], ◌∷◌, some, arith, Text, text, Text-discrete, every, ℕ, map,
  if◌then◌else◌, leb, ◌&&◌, ◌-◌,
}
use lantern_remote.Value.{string, finite, read}
use lantern_remote.Shared.DeviceId.{
  normalize_device_id, parse_device_id, format_device_id, grouped, padded,
}
use lantern_remote.Shared.ConnectionToken.{
  token_alphabet, includes, code_points, is_valid_token_format, normalize_token_input,
}
use lantern_remote.Shared.ConnectionToken.Laws.{in_alphabet, every-includes}
use lantern_remote.Shared.RemoteInput.{
  RemoteInputMessage, mouse_move, RemoteInputRequest, parse_remote_input_message,
  parse_remote_input_request, encode_message, encode_request,
}
use lantern_remote.Shared.RemoteInput.Keys.{keyboard_code_whitelist}
use lantern_remote.Shared.RemoteInput.Validity.{
  IsValidRequest, parse_request_sound, IsValidRequest, parse_request_sound,
}

-- Names what a run of the protocol's functions computes with.
run : Unit {0}
unfolding text Text-discrete read normalize_device_id parse_device_id format_device_id grouped
    padded token_alphabet includes code_points is_valid_token_format normalize_token_input
    parse_remote_input_message parse_remote_input_request encode_message encode_request
    keyboard_code_whitelist
run = tt

abbrev typed_id : Text
unfolding text
typed_id = text "482 913 742"

abbrev digits : Text
unfolding text
digits = text "482913742"

typed_id_parses : parse_device_id typed_id ≡ some digits
unfolding run
typed_id_parses = refl

abbrev code : Text
unfolding text
code = text "AB23CD"

code_is_valid : is_valid_token_format (string code) ≡ true
unfolding run
code_is_valid = refl

-- Upper-casing of ASCII letters.
abbrev upper_char : ℕ → ℕ
upper_char c = if leb b'a' c && leb c b'z' then c - 32 else c

ascii_upper : Text → Text
ascii_upper s = map upper_char s

normalizes : normalize_token_input ascii_upper (text "ab-23 cd0x") ≡ text "AB23CD"
unfolding run ascii_upper
normalizes = refl

no_lower : every (λ d. leb d 90) token_alphabet ≡ true
unfolding token_alphabet
no_lower = refl

-- Upper-casing leaves the alphabet alone: no lower-case letter is in it.
upper_fixed : (s : Text) → every in_alphabet s ≡ true → ascii_upper s ≡ s
unfolding ascii_upper
upper_fixed [] h = refl
upper_fixed (c ∷ s) h =
    let low : leb c 90 ≡ true =
      every-includes (λ d. leb d 90) token_alphabet [] c no_lower (ground arith) in
    ground (arith, low, upper_fixed s (ground arith))

abbrev centre : RemoteInputMessage
centre = mouse_move (finite false 1 1) (finite false 1 1)

abbrev centre_request : RemoteInputRequest
centre_request = record {
  message = centre;
  display_width = finite false 1920 0;
  display_height = finite false 1080 0;
}

request_passes : parse_remote_input_request (encode_request centre_request) ≡ some centre_request
unfolding run
request_passes = refl

centre_request_valid : IsValidRequest centre_request
centre_request_valid =
    parse_request_sound (encode_request centre_request) centre_request request_passes
