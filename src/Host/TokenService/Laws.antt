-- ===== src/Host/TokenService/Laws.antt =====
-- Which codes the host accepts, and for how long.
use lantern_remote.Common.{
  ℕ, zero, suc, ◌+◌, ◌<◌, ◌≡◌, refl, ◌↔◌, ◌⊎◌, inl, inr, Bool, true, false, [], ◌∷◌, ◌++◌, Option,
  none, some, arith, Text, length, length-append, every, every-append, Option-cases, ltb,
  Bool-cases,
}
use lantern_remote.Value.{Value, string}
use lantern_remote.Shared.ConnectionToken.{
  token_alphabet, ConnectionTokenInfo, is_valid_token_format, includes,
}
use lantern_remote.Shared.ConnectionToken.Laws.{in_alphabet, is_valid_token_format_iff}
use lantern_remote.Host.TokenService.{
  ConnectionTokenService, char_at, draw_code, regenerate, get_or_create, validate, consume, clear,
  token_ttl_ms,
}

module _ (p : ℕ → Bool) where
  char_at_sound :
      (s : Text) (i : ℕ)
      → i < length s
      → every p s ≡ true
      → (length (char_at s i) ≡ 1) × (every p (char_at s i) ≡ true)
  char_at_sound [] i h e = absurd (omega arith)
  char_at_sound (c ∷ s) zero h e = ground arith
  char_at_sound (c ∷ s) (suc i) h e = char_at_sound s i (omega arith) (ground arith)

alphabet_in : (length token_alphabet ≡ 31) × (every in_alphabet token_alphabet ≡ true)
unfolding token_alphabet includes
alphabet_in = (refl, refl)

alphabet_sound :
    (i : ℕ)
    → i < 31
    → (length (char_at token_alphabet i) ≡ 1)
      × (every in_alphabet (char_at token_alphabet i) ≡ true)
alphabet_sound i h =
    char_at_sound in_alphabet token_alphabet i (omega (arith, alphabet_in.0)) alphabet_in.1

-- The live code, if any, has the shape of a code.
pub record IsWellFormed (s : ConnectionTokenService) : Type 0 where
  pub shaped :
      (info : ConnectionTokenInfo)
      → s.current ≡ some info
      → is_valid_token_format (string info.code) ≡ true

-- A value is accepted exactly when it is the live code and the code has not expired.
pub validate_iff :
    (now : ℕ) (candidate : Value) {s : ConnectionTokenService}
    → IsWellFormed s
    → (validate now candidate s ≡ true) ↔ (
        (info : ConnectionTokenInfo) × (s.current ≡ some info)
        × (now < info.expires_at)
        × (candidate ≡ string info.code))
unfolding validate
validate_iff now candidate {s} v = (
  accepted candidate (s.current) refl,
  λ (info, e, t, c). rw c (rw (v.shaped info e) (rw e (ground arith))),
)
  where
    accepted :
        (candidate : Value) (o : Option ConnectionTokenInfo)
        → s.current ≡ o
        → validate now candidate s ≡ true
        → (info : ConnectionTokenInfo) × (s.current ≡ some info)
          × (now < info.expires_at)
          × (candidate ≡ string info.code)
    accepted (string t) none e h = absurd (ground (arith, e))
    accepted (string t) (some info) e h = (info, e, ground (arith, e), ground (arith, e))
    accepted _ o e h = absurd (ground arith)

-- Once the code is consumed or revoked, nothing is accepted at any time.
pub validate-spent :
    (now : ℕ) (candidate : Value) (s : ConnectionTokenService)
    → (validate now candidate (consume s).1 ≡ false) × (validate now candidate (clear s) ≡ false)
unfolding validate consume clear
validate-spent now candidate s = ground arith

module _ (draw : ℕ → ℕ) (in_range : (i : ℕ) → draw i < 31) where
  draw_code_sound :
      (rounds i : ℕ) (code : Text)
      → every in_alphabet code ≡ true
      → (length (draw_code draw rounds i code) ≡ length code + rounds)
        × (every in_alphabet (draw_code draw rounds i code) ≡ true)
  unfolding draw_code
  draw_code_sound zero i code h = (omega arith, h)
  draw_code_sound (suc rounds) i code h =
      let (one, good) = alphabet_sound (draw i) (in_range i) in
      let (n, all) =
        draw_code_sound rounds (i + 1) (code ++ char_at token_alphabet (draw i))
          (every-append in_alphabet code _ h good) in
      (omega (arith, one, n, length-append {0}), all)

  pub regenerate-valid :
      (now : ℕ) (s : ConnectionTokenService)
      → is_valid_token_format (string (regenerate draw now s).0.code) ≡ true
  unfolding regenerate
  regenerate-valid now s =
      let (n, all) = draw_code_sound 6 0 [] refl in
      (is_valid_token_format_iff (draw_code draw 6 0 [])).1 (n, all)

  issued :
      (now : ℕ) (s : ConnectionTokenService) {live : Type 0}
      → let r = regenerate draw now s in
        (r.1.current ≡ some r.0)
        × (is_valid_token_format (string r.0.code) ≡ true)
        × (live ⊎ (r.0.expires_at ≡ now + token_ttl_ms))
  unfolding regenerate
  issued now s = (refl, regenerate-valid now s, inr refl)

  -- The code that is handed out is live in the new state and has the shape of a code. A live code is
  -- handed out again; else the one handed out is new and lives for the time to live.
  pub get_or_create_live :
      (now later : ℕ) {s : ConnectionTokenService}
      → IsWellFormed s
      → let r = get_or_create draw now later s in
        (r.1.current ≡ some r.0)
        × (is_valid_token_format (string r.0.code) ≡ true)
        × (((s.current ≡ some r.0) × (now < r.0.expires_at))
            ⊎ (r.0.expires_at ≡ later + token_ttl_ms))
  unfolding get_or_create
  get_or_create_live now later {s} v = elim (Option-cases s.current) [
    | inl n ↦ rw n (issued later s)
    | inr (info, e) ↦ elim (Bool-cases (ltb now info.expires_at)) [
      | inl live ↦ rw e (rw live (refl, v.shaped info e, inl (refl, ground arith)))
      | inr old ↦ rw e (rw old (issued later s))
    ]
  ]
