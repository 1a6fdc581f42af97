-- ===== src/Shared/RemoteInput/Pixels.antt =====
-- shared/remoteInput.ts: a normalised point lies in the unit square, and a pixel on the display.
use native.Mathlib.Nat.{div-add-mod, div-lt_iff_lt-mul, one-le-pow, div-eq_of_lt}
use lantern_remote.Common.{
  ℕ, ◌+◌, ◌*◌, ◌/◌, ◌^◌, ◌≤◌, ◌<◌, ◌≡◌, Bool, true, false, some, arith, Option, ◌-◌, refl,
}
use lantern_remote.Value.{Number, nan, infinite, finite, is_integer, ge_zero, le_whole}
use lantern_remote.Shared.RemoteInput.{in_unit, is_dimension}
use lantern_remote.Shared.RemoteInput.Geometry.{
  Doubles, FrameSize, clamp01, math_round, normalize_point, denormalize, in_frame, within,
}

pub in_unit-clamp01 : (n : Number) → in_unit (clamp01 n) ≡ true
unfolding clamp01
in_unit-clamp01 n = ground arith

in_frame-in_unit :
    (f : Doubles) (offset left length x : Number)
    → in_frame f offset left length ≡ some x
    → in_unit x ≡ true
unfolding in_frame
in_frame-in_unit f offset left length x h =
    ground (arith, in_unit-clamp01 (f.div (f.sub offset left) length))

within-eq_some :
    (f : Doubles) (outside : Bool) (a b : Option Number) {x y : Number}
    → within f outside a b ≡ some (x, y)
    → (a ≡ some x) × (b ≡ some y)
within-eq_some f outside a b h = ground arith

-- A point of the frame has both coordinates between 0 and 1, whatever the doubles round to.
pub normalize_point-in_unit :
    (f : Doubles) (element video : FrameSize) (ox oy x y : Number)
    → normalize_point f element video ox oy ≡ some (x, y)
    → (in_unit x ≡ true) × (in_unit y ≡ true)
unfolding normalize_point
normalize_point-in_unit f element video ox oy x y h =
    let (p, q) = within-eq_some f _ _ _ h in
    (in_frame-in_unit f _ _ _ x p, in_frame-in_unit f _ _ _ y q)

-- What the code relies on of IEEE 754: a whole number times a factor between 0 and 1 is not negative
-- and passes no whole bound of that number, since rounding is monotone and keeps whole numbers.
pub record IsIeee (f : Doubles) : Type 0 where
  pub mul_unit :
      (x w : Number) (n : ℕ)
      → in_unit x ≡ true
      → is_integer w ≡ true
      → ge_zero w ≡ true
      → le_whole w n ≡ true
      → (ge_zero (f.mul x w) ≡ true) × (le_whole (f.mul x w) n ≡ true)

pow-pos : (k : ℕ) → 0 < 2 ^ k
pow-pos k = one-le-pow k 2 (omega arith)

half_up-le : (m n p : ℕ) → 0 < p → m ≤ n * p → (2 * m + p) / (2 * p) ≤ n
half_up-le m n p pos h =
    let lt =
      (div-lt_iff_lt-mul {k = 2 * p} {x = 2 * m + p} {y = n + 1} (omega arith)).1 (grind arith) in
    omega arith

math_round-le_whole :
    (x : Number) (n : ℕ)
    → ge_zero x ≡ true
    → le_whole x n ≡ true
    → (is_integer (math_round x) ≡ true)
      × (ge_zero (math_round x) ≡ true)
      × (le_whole (math_round x) n ≡ true)
unfolding math_round
math_round-le_whole nan n g h = absurd (cc)
math_round-le_whole (infinite neg) n g h = absurd (ground arith)
math_round-le_whole (finite false m k) n g h = ground (arith, half_up-le m n (2 ^ k) (pow-pos k))
math_round-le_whole (finite true m k) n g h =
    let small = div-eq_of_lt {n = 2 ^ k - 1} {m = 2 * 2 ^ k} (omega (arith, pow-pos k)) in
    ground (arith, small)

-- The natural number that a whole side stands for.
abbrev pub whole_of : Number → ℕ
whole_of (finite neg m k) = m / 2 ^ k
whole_of _ = 0

le_whole_of : (side : Number) → is_dimension side ≡ true → le_whole side (whole_of side) ≡ true
le_whole_of nan h = absurd (cc)
le_whole_of (infinite neg) h = absurd (cc)
le_whole_of (finite true m k) h = refl
le_whole_of (finite false m k) h = ground (arith, div-add-mod m (2 ^ k))

-- A whole number of pixels from zero to the side, ends included.
abbrev pub IsPixel : Number → (side : Number) → Type 0
IsPixel p side = (is_integer p ≡ true) × (ge_zero p ≡ true) × (le_whole p (whole_of side) ≡ true)

pub denormalize-IsPixel :
    (f : Doubles)
    → IsIeee f
    → (side coordinate : Number) → is_dimension side ≡ true
    → IsPixel (denormalize f side coordinate) side
unfolding denormalize
denormalize-IsPixel f v side coordinate d =
    let (g, b) =
      v.mul_unit (clamp01 coordinate) side (whole_of side) (in_unit-clamp01 coordinate)
        (ground arith) (ground arith) (le_whole_of side d) in
    math_round-le_whole (f.mul (clamp01 coordinate) side) (whole_of side) g b
