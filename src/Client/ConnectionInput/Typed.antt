-- ===== src/Client/ConnectionInput/Typed.antt =====
-- What is typed, and what is asked for.
use lantern_remote.Shared.DeviceId.RoundTrip.{parse-format}
use lantern_remote.Shared.ConnectionToken.{normalize_token_input}
use lantern_remote.Client.Signaling.{SignalingService, request_connection_begin}
use lantern_remote.Value.{string}
use lantern_remote.Shared.Signaling
use lantern_remote.Shared.ConnectionToken.{normalize_token_input, is_valid_token_format}
use lantern_remote.Shared.ConnectionToken.Laws.{normalize-IsValid}
use lantern_remote.Server.Handlers.{pass, refuse}
use lantern_remote.Client.Signaling.{SignalingService, connection_to, request_connection_begin}
use lantern_remote.Common.{
  if◌then◌else◌, leb, eqb, none, ◌≡◌, ◌≤◌, refl, true, [], ◌∷◌, arith, Text, length, keep, every,
  take, ap, ◌∙◌, length-take, take-eq_self, every-take, every-keep, present,
}
use lantern_remote.Shared.DeviceId.{
  is_digit, parse_device_id, grouped, normalize_device_id, format_device_id, padded,
}
use lantern_remote.Client.ConnectionInput.{
  parts_of, join_spaced, ℕ, format_input, some, normalize_token_input,
}

-- The groups of nine digits at most, joined, have these digits.
keep-parts_of :
    (d : Text)
    → length d ≤ 9
    → every is_digit d ≡ true
    → keep is_digit (join_spaced (parts_of d)) ≡ d
unfolding parts_of
keep-parts_of [] n h = refl
keep-parts_of (a ∷ []) n h = ground arith
keep-parts_of (a ∷ b ∷ []) n h = ground arith
keep-parts_of (a ∷ b ∷ c ∷ []) n h = ground arith
keep-parts_of (a ∷ b ∷ c ∷ d ∷ []) n h = ground arith
keep-parts_of (a ∷ b ∷ c ∷ d ∷ e ∷ []) n h = ground arith
keep-parts_of (a ∷ b ∷ c ∷ d ∷ e ∷ f ∷ []) n h = ground arith
keep-parts_of (a ∷ b ∷ c ∷ d ∷ e ∷ f ∷ g ∷ []) n h = ground arith
keep-parts_of (a ∷ b ∷ c ∷ d ∷ e ∷ f ∷ g ∷ i ∷ []) n h = ground arith
keep-parts_of (a ∷ b ∷ c ∷ d ∷ e ∷ f ∷ g ∷ i ∷ j ∷ []) n h = ground arith
keep-parts_of (a ∷ b ∷ c ∷ d ∷ e ∷ f ∷ g ∷ i ∷ j ∷ k ∷ r) n h = absurd (omega arith)

-- What is left of the typed text are its first nine digits.
keep-format_input :
    (value : Text) → keep is_digit (format_input value) ≡ take 9 (keep is_digit value)
unfolding format_input
keep-format_input value =
    let digits = keep is_digit value in
    keep-parts_of (take 9 digits) (omega (arith, length-take 9 digits))
      (every-take is_digit 9 digits (every-keep is_digit value))

take-take : (n : ℕ) (s : Text) → take n (take n s) ≡ take n s
take-take n s = take-eq_self n (take n s) (omega (arith, length-take n s))

-- Typing goes on from what the field shows: formatting it again changes nothing.
format_input-format_input : (value : Text) → format_input (format_input value) ≡ format_input value
unfolding format_input
format_input-format_input value =
    ap (λ d. join_spaced (parts_of (take 9 d))) (keep-format_input value)
    ∙ ap (λ d. join_spaced (parts_of d)) (take-take 9 (keep is_digit value))

grouped-parts_of : (d : Text) → length d ≡ 9 → join_spaced (parts_of d) ≡ grouped d
unfolding parts_of grouped
grouped-parts_of (a ∷ b ∷ c ∷ d ∷ e ∷ f ∷ g ∷ h ∷ i ∷ []) n = refl
grouped-parts_of _ n = absurd (omega arith)

parse-typed :
    (value : Text)
    → parse_device_id (format_input value)
      ≡ (if leb 9 (length (keep is_digit value)) then some (take 9 (keep is_digit value)) else none)
unfolding parse_device_id normalize_device_id
parse-typed value =
    rw (keep-format_input value) (ground (arith, length-take 9 (keep is_digit value)))

present-take :
    (d : Text)
    → present (if leb 9 (length d) then some (take 9 d) else none)
      ≡ (if leb 9 (length d) then some (take 9 d) else none)
present-take [] = ground arith
present-take (c ∷ d) = ground arith

is_valid-normalize :
    (to_upper : Text → Text) (code : Text)
    → is_valid_token_format (string (normalize_token_input to_upper code))
      ≡ eqb (length (normalize_token_input to_upper code)) 6
is_valid-normalize to_upper code = ground (arith, (normalize-IsValid to_upper code).1)

module _ (to_upper : Text → Text) (s : SignalingService) (linked : s.socket ≡ some true) where
  -- The request for what the two fields show, whatever has been typed into them: with nine digits at
  -- least and six characters of a code, it is for the first nine digits and for this code; with fewer
  -- digits it is refused as no id, else with fewer characters as no code.
  pub typed_request :
      (value code : Text)
      → request_connection_begin (format_input value) (normalize_token_input to_upper code) s ≡ (
          if leb 9 (length (keep is_digit value))
          then (if eqb (length (normalize_token_input to_upper code)) 6
              then pass (
                  connection_to
                    (take 9 (keep is_digit value))
                    (normalize_token_input to_upper code))
              else refuse Signaling.invalid_token)
          else refuse Signaling.invalid_id)
  unfolding request_connection_begin
  typed_request value code =
      let digits = keep is_digit value in
      rw (linked, parse-typed value, present-take digits, is_valid-normalize to_upper code)
        (ground arith)

digits-parse :
    (input d : Text) → parse_device_id input ≡ some d → (keep is_digit input ≡ d) × (length d ≡ 9)
unfolding parse_device_id normalize_device_id
digits-parse input d h = ground arith

-- The id as the host's window shows it, typed or pasted into the field, stays as it is.
pub format_input-format_device_id :
    (input : Text) → format_input (format_device_id input) ≡ format_device_id input
unfolding format_input format_device_id
format_input-format_device_id input =
    let (same, n) = digits-parse (format_device_id input) (padded input) (parse-format input).0 in
    ap (λ d. join_spaced (parts_of (take 9 d))) same
    ∙ ap (λ d. join_spaced (parts_of d)) (take-eq_self 9 (padded input) (omega arith))
    ∙ grouped-parts_of (padded input) n
