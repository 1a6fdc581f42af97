-- ===== src/Shared/ConnectionToken/Laws.antt =====
-- The shape of a connection code, and the normalisation of what is typed.
use lantern_remote.Common.{
  ℕ, ◌≤◌, ◌≡◌, refl, Bool, true, false, ◌↔◌, inl, inr, [], ◌∷◌, arith, Text, leb, length, keep,
  every, length-take, take-eq_self, every-keep, keep-eq_self, every-take, Bool-cases,
}
use lantern_remote.Value.{string}
use lantern_remote.Shared.ConnectionToken.{
  token_alphabet, includes, is_high, code_points, is_valid_token_format, normalize_token_input,
}

abbrev pub in_alphabet : ℕ → Bool
in_alphabet c = includes token_alphabet (c ∷ [])

abbrev is_ascii : ℕ → Bool
is_ascii c = leb c 127

-- The first code unit of a part of a text stands in the text.
pub every-includes :
    (p : ℕ → Bool) (hay t : Text) (c : ℕ)
    → every p hay ≡ true
    → includes hay (c ∷ t) ≡ true
    → p c ≡ true
unfolding includes
every-includes p [] t c a h = absurd (ground arith)
every-includes p (d ∷ hay) t c a h = ground (arith, every-includes p hay t c)

alphabet_ascii : every is_ascii token_alphabet ≡ true
unfolding token_alphabet
alphabet_ascii = refl

surrogate_excluded : (h : ℕ) (t : Text) → is_high h ≡ true → includes token_alphabet (h ∷ t) ≡ false
surrogate_excluded h t e = elim (Bool-cases (includes token_alphabet (h ∷ t))) [
  | inl p ↦ absurd (ground (arith, every-includes is_ascii token_alphabet t h alphabet_ascii p))
  | inr n ↦ n
]

-- The loop over code points accepts exactly the texts all of whose code units are in the alphabet.
every-code_points :
    (s : Text) → every (includes token_alphabet) (code_points s) ≡ every in_alphabet s
unfolding code_points
every-code_points [] = refl
every-code_points (h ∷ []) = refl
every-code_points (h ∷ l ∷ s) = ground (
  arith,
  surrogate_excluded h (l ∷ []),
  surrogate_excluded h [],
  every-code_points s,
  every-code_points (l ∷ s),
)

-- The guard accepts exactly the texts of six code units that all stand in the alphabet, although it
-- walks code points.
pub is_valid_token_format_iff :
    (s : Text)
    → (is_valid_token_format (string s) ≡ true) ↔ ((length s ≡ 6) × (every in_alphabet s ≡ true))
unfolding is_valid_token_format
is_valid_token_format_iff s = rw (every-code_points s) (ground arith)

module _ (to_upper : Text → Text) where
  every-normalize : (s : Text) → every in_alphabet (normalize_token_input to_upper s) ≡ true
  unfolding normalize_token_input
  every-normalize s =
      every-take in_alphabet 6 (keep in_alphabet (to_upper s)) (every-keep in_alphabet (to_upper s))

  length-normalize-le : (s : Text) → length (normalize_token_input to_upper s) ≤ 6
  unfolding normalize_token_input
  length-normalize-le s = omega (arith, length-take 6 (keep in_alphabet (to_upper s)))

  -- Normalised input has at most six characters, and it is a valid code exactly when it has six.
  pub normalize-IsValid :
      (s : Text)
      → (length (normalize_token_input to_upper s) ≤ 6)
        × ((is_valid_token_format (string (normalize_token_input to_upper s)) ≡ true)
            ↔ (length (normalize_token_input to_upper s) ≡ 6))
  normalize-IsValid s =
      let n = normalize_token_input to_upper s in
      let iff = is_valid_token_format_iff n in
      (length-normalize-le s, (λ e. (iff.0 e).0, λ e. iff.1 (e, every-normalize s)))

  module _ (upper_fixed : (s : Text) → every in_alphabet s ≡ true → to_upper s ≡ s) where
    normalize-eq_self :
        (s : Text)
        → length s ≤ 6
        → every in_alphabet s ≡ true
        → normalize_token_input to_upper s ≡ s
    unfolding normalize_token_input
    normalize-eq_self s n h =
        rw (upper_fixed s h, keep-eq_self in_alphabet s h) (take-eq_self 6 s n)

    -- Where upper-casing leaves texts over the alphabet alone, typing a valid code leaves it as it
    -- is.
    pub normalize_valid :
        (s : Text) → is_valid_token_format (string s) ≡ true → normalize_token_input to_upper s ≡ s
    normalize_valid s e =
        let (n, h) = (is_valid_token_format_iff s).0 e in normalize-eq_self s (omega arith) h

    -- Where upper-casing leaves texts over the alphabet alone, normalising twice is normalising once.
    pub normalize-normalize :
        (s : Text)
        → normalize_token_input to_upper (normalize_token_input to_upper s)
          ≡ normalize_token_input to_upper s
    normalize-normalize s = normalize-eq_self _ (length-normalize-le s) (every-normalize s)
