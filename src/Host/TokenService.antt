-- ===== src/Host/TokenService.antt =====
-- electron/services/ConnectionTokenService.ts. The clock and the random numbers are arguments.
pub mod Laws
use lantern_remote.Common.{
  ℕ, zero, suc, ◌+◌, ◌*◌, Bool, true, false, not, [], ◌∷◌, ◌++◌, List, Option, none, some, Text,
  ltb, leb, eqb, ◌==◌, length, if◌then◌else◌,
}
use lantern_remote.Value.{Value, string}
use lantern_remote.Shared.ConnectionToken.{
  token_length, token_alphabet, ConnectionTokenInfo, is_valid_token_format,
}

abbrev pub token_ttl_ms : ℕ
token_ttl_ms = 10 * 60 * 1000

-- The live code, if there is one.
pub record ConnectionTokenService : Type 0 where
  pub current : Option ConnectionTokenInfo

-- `TOKEN_ALPHABET[i]` as a text: out of range it would be `undefined`, which no draw reaches.
abbrev pub char_at : Text → ℕ → Text
char_at [] i = []
char_at (c ∷ s) zero = c ∷ []
char_at (c ∷ s) (suc i) = char_at s i

-- The loop: `rounds` characters are left to draw, `draw i` being the number drawn in round i.
pub draw_code : (draw : ℕ → ℕ) (rounds i : ℕ) → Text → Text
draw_code draw zero i code = code
draw_code draw (suc rounds) i code =
    draw_code draw rounds (i + 1) (code ++ char_at token_alphabet (draw i))

unfoldable pub regenerate :
    (draw : ℕ → ℕ) (now : ℕ) → ConnectionTokenService → ConnectionTokenInfo × ConnectionTokenService
unfolding draw_code
regenerate draw now s =
    let info : ConnectionTokenInfo = record {
      code = draw_code draw token_length 0 [];
      expires_at = now + token_ttl_ms;
    } in
    (info, record { current = some info })

-- `now` is read for the test, and again, as `later`, if a code is generated.
unfoldable pub get_or_create :
    (draw : ℕ → ℕ) (now later : ℕ)
    → ConnectionTokenService
    → ConnectionTokenInfo × ConnectionTokenService
unfolding regenerate
get_or_create draw now later s =
    let fresh = regenerate draw later s in
    elim s.current [
      | none ↦ fresh
      | some live ↦ if ltb now live.expires_at then (live, s) else fresh
    ]

-- Both texts are ASCII where they are compared, so their UTF-8 bytes are their code units.
abbrev pub matches : Value → ConnectionTokenInfo → Bool
matches (string candidate) live =
    if not (eqb (length candidate) (length live.code)) then false else candidate == live.code
matches _ live = false

abbrev pub matches_live : ℕ → Value → Option ConnectionTokenInfo → Bool
matches_live now candidate none = false
matches_live now candidate (some live) =
    if leb live.expires_at now then false else matches candidate live

pub validate : (now : ℕ) → Value → ConnectionTokenService → Bool
validate now candidate s =
    if not (is_valid_token_format candidate) then false else matches_live now candidate s.current

abbrev pub has_code : Option ConnectionTokenInfo → Bool
has_code none = false
has_code (some info) = true

unfoldable pub consume : ConnectionTokenService → Bool × ConnectionTokenService
consume s = (has_code s.current, record { current = none })

unfoldable pub clear : ConnectionTokenService → ConnectionTokenService
clear s = record { current = none }
