-- ===== src/Host/Identity/Answers.antt =====
-- electron/services/DeviceIdentityService.ts: drawn ids, and the answers that callers get.
use lantern_remote.Common.{
  ℕ, ◌≡◌, refl, Bool, true, false, List, [], ◌∷◌, none, some, Text, ltb, length, every, ◌==◌, arith,
}
use lantern_remote.Shared.DeviceId.{is_digit, parse_device_id}
use lantern_remote.Shared.DeviceId.RoundTrip.{parse_device_id_self}
use lantern_remote.Host.Identity.{Answer, generate_digits, is_drawn, answers}

length-generate : (draws : List ℕ) → length (generate_digits draws) ≡ length draws
length-generate [] = refl
length-generate (n ∷ draws) = omega (arith, length-generate draws)

digits-generate :
    (draws : List ℕ)
    → every (λ n. ltb n 10) draws ≡ true
    → every is_digit (generate_digits draws) ≡ true
digits-generate [] h = refl
digits-generate (n ∷ draws) h = ground (arith, digits-generate draws)

-- Nine drawn digits are a device id.
pub generate-parse :
    (draws : List ℕ)
    → is_drawn draws ≡ true
    → parse_device_id (generate_digits draws) ≡ some (generate_digits draws)
generate-parse draws h =
    parse_device_id_self (generate_digits draws) (ground (arith, length-generate draws))
      (digits-generate draws (ground arith))

abbrev pub is_rejected : Answer → Bool
is_rejected (caller, none) = true
is_rejected (caller, some id) = false

-- The answer is a rejection or this id.
abbrev pub is_id : Text → Answer → Bool
is_id id (caller, none) = true
is_id id (caller, some given) = given == id

pub answers-is_id :
    (id : Text) (callers : List ℕ) → every (is_id id) (answers callers (some id)) ≡ true
answers-is_id id [] = refl
answers-is_id id (c ∷ cs) = ground (arith, answers-is_id id cs)

pub answers-is_rejected : (callers : List ℕ) → every is_rejected (answers callers none) ≡ true
answers-is_rejected [] = refl
answers-is_rejected (c ∷ cs) = ground (arith, answers-is_rejected cs)

pub rejected-is_id :
    (id : Text) (as_given : List Answer)
    → every is_rejected as_given ≡ true
    → every (is_id id) as_given ≡ true
rejected-is_id id [] h = refl
rejected-is_id id ((c, none) ∷ rest) h = rejected-is_id id rest h
rejected-is_id id ((c, some i) ∷ rest) h = absurd (cc)
