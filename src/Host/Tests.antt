-- ===== src/Host/Tests.antt =====
-- The host's theorems at a concrete code and key.
mod Commands
mod Ipc
mod Services
use lantern_remote.Value.{Number, finite}
use lantern_remote.Dict.{get}
use lantern_remote.Shared.RemoteInput.{
  RemoteInputRequest, keyboard, keydown, key_event_text, encode_request, parse_remote_input_request,
}
use lantern_remote.Shared.RemoteInput.Validity.{parse-encode_request}
use lantern_remote.Value.{le_whole}
use lantern_remote.Shared.RemoteInput.{mouse_move}
use lantern_remote.Shared.RemoteInput.Geometry.{Doubles, zero_number, one_number, lt_number}
use lantern_remote.Shared.RemoteInput.Pixels.{IsIeee, IsPixel}
use lantern_remote.Host.Input.Dispatch.Mouse.{dispatch_move}
use lantern_remote.Host.Input.Adapter.{runs}
use lantern_remote.Host.Input.Linux.{linux_adapter}
use lantern_remote.Host.Input.Dispatch.{dispatch, dispatch_result}
use lantern_remote.Host.Input.Dispatch.Keyboard.{dispatch_key, unsupported_is_silent}
use lantern_remote.Common.{
  ℕ, ◌+◌, ◌<◌, ◌≡◌, refl, ◌↔◌, ◌⊎◌, true, false, some, arith, Text, text, Text-discrete, subst, ◌≢◌,
  [], ◌∷◌, List, Option, none, if◌then◌else◌,
}
use lantern_remote.Value.{string}
use lantern_remote.Shared.ConnectionToken.{
  ConnectionTokenInfo, token_alphabet, includes, code_points, is_valid_token_format,
}
use lantern_remote.Host.TokenService.{
  ConnectionTokenService, get_or_create, validate, consume, clear, token_ttl_ms,
}
use lantern_remote.Host.TokenService.Laws.{
  IsWellFormed, validate_iff, validate-spent, get_or_create_live,
}
use lantern_remote.Shared.RemoteInput.Keys.{keyboard_code_whitelist, has}
use lantern_remote.Host.Input.LinuxKeymap.{keymap, is_mapped, keymap_complete}

abbrev code : Text
unfolding text
code = text "AB23CD"

abbrev info : ConnectionTokenInfo
info = record { code = code; expires_at = 1000 }

abbrev issued : ConnectionTokenService
issued = record { current = some info }

code_shaped : is_valid_token_format (string code) ≡ true
unfolding text token_alphabet includes code_points is_valid_token_format
code_shaped = refl

some_same : (i : ConnectionTokenInfo) → issued.current ≡ some i → info ≡ i
some_same i e = cc

issued-IsWellFormed : IsWellFormed issued
issued-IsWellFormed = record {
  shaped =
      λ i e. subst (λ j. is_valid_token_format (string j.code) ≡ true) (some_same i e) code_shaped;
}

accepts_the_code : validate 500 (string code) issued ≡ true
accepts_the_code =
    (validate_iff 500 (string code) issued-IsWellFormed).1 (info, refl, omega arith, refl)

abbrev third : ℕ → ℕ
third i = 2

abbrev arrow : Text
unfolding text
arrow = text "ArrowUp"

arrow_listed : has arrow keyboard_code_whitelist ≡ true
unfolding text keyboard_code_whitelist Text-discrete
arrow_listed = refl

abbrev arrow_request : RemoteInputRequest
arrow_request = record {
  message = keyboard keydown arrow arrow;
  display_width = finite false 800 0;
  display_height = finite false 600 0;
}

arrow_parses : parse_remote_input_request (encode_request arrow_request) ≡ some arrow_request
unfolding arrow
arrow_parses =
    parse-encode_request arrow_request ((omega arith, omega arith, arrow_listed), refl, refl)

-- A product that gives the second factor for one, and else zero.
abbrev product : Number → Number → Number
product x w =
    if le_whole x 0 then zero_number else if lt_number x one_number then zero_number else w

abbrev doubles : Doubles
doubles = record { mul = product; div = λ a b. zero_number; sub = λ a b. zero_number }

doubles-IsIeee : IsIeee doubles
doubles-IsIeee = record { mul_unit = λ x w n u i g h. ground arith }

abbrev shown : Number → Text
shown n = []

abbrev notches : Number → ℕ
notches n = 1

abbrev never_fails : List Text → Option Text
never_fails args = none

abbrev always_fails : List Text → Option Text
always_fails args = some arrow

unsupported_is_silent_example :
    let linux = linux_adapter shown notches false in
    ((args : List Text) → dispatch doubles linux (encode_request arrow_request) ≢ some (runs args))
    × (dispatch_result never_fails doubles linux (encode_request arrow_request)
        ≡ dispatch_result always_fails doubles linux (encode_request arrow_request))
unsupported_is_silent_example =
    unsupported_is_silent doubles shown notches never_fails always_fails
      (encode_request arrow_request)

abbrev move_request : RemoteInputRequest
move_request = record arrow_request { message = mouse_move one_number zero_number }

move_parses : parse_remote_input_request (encode_request move_request) ≡ some move_request
move_parses = parse-encode_request move_request ((refl, refl), refl, refl)

dispatch_move_example :
    (px : Number) × (py : Number) × (dispatch doubles
        (linux_adapter shown notches true)
        (encode_request move_request)
      ≡ some ((linux_adapter shown notches true).move_mouse px py))
    × IsPixel px (finite false 800 0)
    × IsPixel py (finite false 600 0)
dispatch_move_example =
    dispatch_move doubles doubles-IsIeee (linux_adapter shown notches true)
      (encode_request move_request) move_request one_number zero_number move_parses refl
