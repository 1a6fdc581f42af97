-- ===== src/Shared/DeviceId/RoundTrip.antt =====
-- Parsing after formatting, and what each of them guarantees.
use lantern_remote.Common.{
  ◌-◌, ◌≡◌, refl, ap, ◌∙◌, true, [], ◌∷◌, ◌++◌, some, arith, Text, length, slice, keep, every,
  replicate, length-append, length-take, length-replicate, take-eq_self, every-keep, keep-eq_self,
  keep-append, every-append, every-take, every-replicate,
}
use lantern_remote.Shared.DeviceId.{
  is_digit, space, normalize_device_id, parse_device_id, format_device_id, padded, grouped,
}

-- A parsed identifier consists of nine digits.
pub parse_device_id_sound :
    (input digits : Text)
    → parse_device_id input ≡ some digits
    → (length digits ≡ 9) × (every is_digit digits ≡ true)
unfolding parse_device_id normalize_device_id
parse_device_id_sound input digits e = ground (arith, every-keep is_digit input)

-- Nine digits parse to themselves.
pub parse_device_id_self :
    (digits : Text)
    → length digits ≡ 9
    → every is_digit digits ≡ true
    → parse_device_id digits ≡ some digits
unfolding parse_device_id normalize_device_id
parse_device_id_self digits n h = ground (arith, keep-eq_self is_digit digits)

-- Parsing is stable: what it returns parses to itself.
pub parse-parse :
    (input digits : Text)
    → parse_device_id input ≡ some digits
    → parse_device_id digits ≡ some digits
parse-parse input digits e =
    let (n, h) = parse_device_id_sound input digits e in parse_device_id_self digits n h

length-padded : (input : Text) → length (padded input) ≡ 9
unfolding padded
length-padded input = omega (arith, length-take {0}, length-append {0}, length-replicate {0})

every-padded : (input : Text) → every is_digit (padded input) ≡ true
unfolding padded normalize_device_id
every-padded input =
    let zeros = replicate (9 - length (keep is_digit input)) b'0' in
    every-take is_digit 9 (zeros ++ keep is_digit input) (
      every-append is_digit zeros (keep is_digit input)
        (every-replicate is_digit (9 - length (keep is_digit input)) b'0' refl)
        (every-keep is_digit input))

keep-grouped :
    (a b c : Text)
    → keep is_digit (a ++ (space ++ (b ++ (space ++ c)))) ≡ keep is_digit (a ++ (b ++ c))
keep-grouped a b c = simp keep-append

slices_join : (d : Text) → length d ≡ 9 → slice 0 3 d ++ (slice 3 6 d ++ slice 6 9 d) ≡ d
slices_join (a ∷ b ∷ c ∷ d ∷ e ∷ f ∷ g ∷ h ∷ i ∷ []) n = refl
slices_join _ n = absurd (omega arith)

parse-grouped :
    (d : Text) → length d ≡ 9 → every is_digit d ≡ true → parse_device_id (grouped d) ≡ some d
unfolding parse_device_id normalize_device_id grouped
parse-grouped d n h =
    let same =
      keep-grouped (slice 0 3 d) (slice 3 6 d) (slice 6 9 d)
      ∙ ap (keep is_digit) (slices_join d n)
      ∙ keep-eq_self is_digit d h in
    rw same (ground arith)

padded-parse : (input digits : Text) → parse_device_id input ≡ some digits → padded input ≡ digits
unfolding padded parse_device_id normalize_device_id
padded-parse input digits e =
    let n : length (keep is_digit input) ≡ 9 = ground arith in
    let same : keep is_digit input ≡ digits = ground arith in
    rw n (take-eq_self 9 (keep is_digit input) (omega arith) ∙ same)

-- Whatever is typed, the formatted text parses, to nine digits: those typed, padded with zeros in
-- front and cut after nine.
pub parse-format :
    (input : Text)
    → (parse_device_id (format_device_id input) ≡ some (padded input))
      × (length (padded input) ≡ 9)
      × (every is_digit (padded input) ≡ true)
unfolding format_device_id
parse-format input =
    let n = length-padded input in
    let h = every-padded input in (parse-grouped (padded input) n h, n, h)

-- Formatting an identifier and parsing it again gives the identifier back.
pub parse-format-parse :
    (input digits : Text)
    → parse_device_id input ≡ some digits
    → parse_device_id (format_device_id input) ≡ some digits
parse-format-parse input digits e = (parse-format input).0 ∙ ap some (padded-parse input digits e)
