-- ===== src/Shared/DeviceId.antt =====
-- shared/deviceId.ts
pub mod RoundTrip
use lantern_remote.Common.{
  ℕ, ◌-◌, Bool, true, false, ◌&&◌, List, [], ◌∷◌, ◌++◌, Option, none, some, Text, leb, eqb, length,
  keep, replicate, slice, if◌then◌else◌,
}

abbrev pub device_id_digit_count : ℕ
device_id_digit_count = 9

abbrev pub is_digit : ℕ → Bool
is_digit c = leb b'0' c && leb c b'9'

unfoldable pub normalize_device_id : Text → Text
normalize_device_id input = keep is_digit input

unfoldable pub parse_device_id : Text → Option Text
unfolding normalize_device_id
parse_device_id input =
    let digits = normalize_device_id input in
    if eqb (length digits) device_id_digit_count then some digits else none

abbrev pub is_some {ℓ} : {A : Type ℓ} → Option A → Bool
is_some none = false
is_some (some a) = true

pub is_valid_device_id : Text → Bool
is_valid_device_id input = is_some (parse_device_id input)

-- `s.padStart(n, c)`
abbrev pub pad_start : ℕ → ℕ → Text → Text
pad_start n c s = replicate (n - length s) c ++ s

abbrev pub space : Text
space = b' ' ∷ []

-- The three groups, with a space between them.
unfoldable pub grouped : Text → Text
grouped digits = slice 0 3 digits ++ (space ++ (slice 3 6 digits ++ (space ++ slice 6 9 digits)))

-- The digits that `formatDeviceId` shows.
unfoldable pub padded : Text → Text
unfolding normalize_device_id
padded input = slice 0 9 (pad_start device_id_digit_count b'0' (normalize_device_id input))

unfoldable pub format_device_id : Text → Text
unfolding grouped padded
format_device_id input = grouped (padded input)
