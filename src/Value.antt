-- ===== src/Value.antt =====
-- The values of type `unknown` that the validators read, and the numbers among them.
use Prim.Native.String.{String}
use text.Mathlib.Text.{◌==◌ as str_eq}
use lantern_remote.Common.{
  ℕ, ◌*◌, ◌%◌, ◌^◌, Bool, true, false, not, ◌&&◌, ◌||◌, Option, none, some, Text, leb, eqb,
  if◌then◌else◌,
}

-- An IEEE double, exactly: a finite one is m / 2 ^ k, negative if `neg`.
pub data Number : Type 0 where
  nan : Number
  infinite : (neg : Bool) → Number
  finite : (neg : Bool) (m k : ℕ) → Number

mutual
  pub data Value : Type 0 where
    undefined null : Value
    boolean : Bool → Value
    number : Number → Value
    string : Text → Value
    array : Items → Value
    object : Fields → Value

  pub data Items : Type 0 where
    nil : Items
    item : Value → Items → Items

  pub data Fields : Type 0 where
    end : Fields
    field : String → Value → Fields → Fields

-- `record[key]`: an absent key reads as `undefined`.
unfoldable pub read : String → Fields → Value
read key end = undefined
read key (field k v fs) = if str_eq k key then v else read key fs

-- `typeof v === 'string' ? v : null`
abbrev pub as_string : Value → Option Text
as_string (string s) = some s
as_string _ = none

-- `Number.isFinite`
abbrev pub is_finite : Number → Bool
is_finite (finite neg m k) = true
is_finite _ = false

-- `Number.isInteger`
abbrev pub is_integer : Number → Bool
is_integer (finite neg m k) = eqb (m % 2 ^ k) 0
is_integer _ = false

-- `x < 0`: minus zero is not below zero.
abbrev pub lt_zero : Number → Bool
lt_zero nan = false
lt_zero (infinite neg) = neg
lt_zero (finite neg m k) = neg && not (eqb m 0)

-- `x >= 0`
abbrev pub ge_zero : Number → Bool
ge_zero nan = false
ge_zero (infinite neg) = not neg
ge_zero (finite neg m k) = not neg || eqb m 0

-- `x <= n`, for a whole number n.
abbrev pub le_whole : Number → ℕ → Bool
le_whole nan n = false
le_whole (infinite neg) n = neg
le_whole (finite neg m k) n = neg || leb m (n * 2 ^ k)

-- `Math.abs`
abbrev pub abs : Number → Number
abs nan = nan
abs (infinite neg) = infinite false
abs (finite neg m k) = finite false m k
