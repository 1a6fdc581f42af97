-- ===== src/Shared/ConnectionToken.antt =====
-- shared/connectionToken.ts
pub mod Laws
use lantern_remote.Common.{
  ℕ, Bool, true, false, not, ◌&&◌, ◌||◌, List, [], ◌∷◌, Text, text, leb, eqb, length, keep, every,
  slice, if◌then◌else◌,
}
use lantern_remote.Value.{Value, string}

abbrev pub token_length : ℕ
token_length = 6

unfoldable pub token_alphabet : Text
unfolding text
token_alphabet = text "ABCDEFGHJKMNPQRSTUVWXYZ23456789"

pub record ConnectionTokenInfo : Type 0 where
  pub code : Text
  -- Epoch ms when the code stops being valid.
  pub expires_at : ℕ

abbrev pub starts_with : Text → Text → Bool
starts_with s [] = true
starts_with [] (c ∷ t) = false
starts_with (d ∷ s) (c ∷ t) = eqb d c && starts_with s t

-- `s.includes(t)`
unfoldable pub includes : Text → Text → Bool
includes [] t = starts_with [] t
includes (d ∷ s) t = starts_with (d ∷ s) t || includes s t

-- The two halves of a surrogate pair.
abbrev pub is_high : ℕ → Bool
is_high c = leb 0xd800 c && leb c 0xdbff

abbrev pub is_low : ℕ → Bool
is_low c = leb 0xdc00 c && leb c 0xdfff

-- What `for (const char of value)` runs through: code points, each as a text.
unfoldable pub code_points : Text → List Text
code_points [] = []
code_points (h ∷ []) = (h ∷ []) ∷ []
code_points (h ∷ l ∷ s) =
    let pair = (h ∷ l ∷ []) ∷ code_points s in
    let single = (h ∷ []) ∷ code_points (l ∷ s) in if is_high h && is_low l then pair else single

-- The type guard on a value of type `unknown`.
unfoldable pub is_valid_token_format : Value → Bool
is_valid_token_format (string value) =
    if not (eqb (length value) token_length)
    then false
    else every (includes token_alphabet) (code_points value)
is_valid_token_format _ = false

-- `toUpperCase` of the JavaScript runtime is the parameter `to_upper`.
unfoldable pub normalize_token_input : (to_upper : Text → Text) → Text → Text
normalize_token_input to_upper value =
    slice 0 token_length (keep (λ c. includes token_alphabet (c ∷ [])) (to_upper value))
