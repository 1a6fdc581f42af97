-- ===== src/Shared/RemoteInput/Geometry.antt =====
-- shared/remoteInput.ts: points of the video frame and of the display. The four operations on
-- doubles that round are a parameter; comparisons, clamping and `Math.round` are exact.
use lantern_remote.Common.{
  ℕ, ◌+◌, ◌-◌, ◌*◌, ◌/◌, ◌^◌, Bool, true, false, not, ◌||◌, Option, none, some, ltb, eqb,
  if◌then◌else◌,
}
use lantern_remote.Value.{Number, nan, infinite, finite, is_finite, le_whole}

-- The runtime's `*`, `/` and `-` on doubles.
pub record Doubles : Type 0 where
  pub mul : Number → Number → Number
  pub div : Number → Number → Number
  pub sub : Number → Number → Number

abbrev pub zero_number : Number
zero_number = finite false 0 0

abbrev pub one_number : Number
one_number = finite false 1 0

abbrev pub two_number : Number
two_number = finite false 2 0

abbrev lt_finite : (neg : Bool) (a : ℕ) (neg' : Bool) (b : ℕ) → Bool
lt_finite false a false b = ltb a b
lt_finite true a true b = ltb b a
lt_finite true a false b = not (eqb (a + b) 0)
lt_finite false a true b = false

-- `a < b`
abbrev pub lt_number : Number → Number → Bool
lt_number nan b = false
lt_number a nan = false
lt_number (infinite n) (infinite n') = if n then not n' else false
lt_number (infinite n) (finite n' m' k') = n
lt_number (finite n m k) (infinite n') = not n'
lt_number (finite n m k) (finite n' m' k') = lt_finite n (m * 2 ^ k') n' (m' * 2 ^ k)

abbrev is_minus : Number → Bool
is_minus nan = false
is_minus (infinite neg) = neg
is_minus (finite neg m k) = neg

-- `Math.min`: of two equal numbers a negative one, since minus zero is below plus zero here.
abbrev pub min_number : Number → Number → Number
min_number nan b = nan
min_number a nan = nan
min_number a b =
    if lt_number a b then a else (if lt_number b a then b else (if is_minus a then a else b))

-- `Math.min(1, Math.max(0, value))`, which makes plus zero of minus zero.
unfoldable pub clamp01 : Number → Number
clamp01 n =
    if not (is_finite n)
    then zero_number
    else (if le_whole n 0 then zero_number else (if le_whole n 1 then n else one_number))

-- `Math.round`: halves go up.
unfoldable pub math_round : Number → Number
math_round (finite false m k) = finite false ((2 * m + 2 ^ k) / (2 * 2 ^ k)) 0
math_round (finite true m k) = finite true ((2 * m + 2 ^ k - 1) / (2 * 2 ^ k)) 0
math_round n = n

pub record FrameSize : Type 0 where
  pub width : Number
  pub height : Number

module _ (f : Doubles) where
  -- Where the frame begins on one axis, and how long it is.
  abbrev content : (element video scale : Number) → Number × Number
  content element video scale =
      let length = f.mul video scale in (f.div (f.sub element length) two_number, length)

  unfoldable pub in_frame : (offset left length : Number) → Option Number
  in_frame offset left length =
      let from_left = f.sub offset left in
      if lt_number from_left zero_number || lt_number length from_left
      then none
      else some (clamp01 (f.div from_left length))

  abbrev pub within : (outside : Bool) → Option Number → Option Number → Option (Number × Number)
  within false (some x) (some y) = some (x, y)
  within _ _ _ = none

  -- `none` outside the frame.
  unfoldable pub normalize_point :
      (element video : FrameSize) (offset_x offset_y : Number) → Option (Number × Number)
  normalize_point element video offset_x offset_y =
      let scale =
        min_number (f.div element.width video.width) (f.div element.height video.height) in
      let (left, width) = content element.width video.width scale in
      let (top, height) = content element.height video.height scale in
      within
        (le_whole element.width 0
          || (le_whole element.height 0 || (le_whole video.width 0 || le_whole video.height 0)))
        (in_frame offset_x left width) (in_frame offset_y top height)

  -- One coordinate of the display's pixels.
  unfoldable pub denormalize : (length coordinate : Number) → Number
  denormalize length coordinate = math_round (f.mul (clamp01 coordinate) length)
