-- ===== src/Common/Lists.antt =====
-- Lists measured by native numbers, under the library's names, and the string methods on them.
use Prim.Native.Nat.{ℕ, zero, suc, ◌+◌, ◌-◌, ◌≤◌, min}
use mathlib.Core.Path.{◌≡◌, refl}
use mathlib.Core.Bool.{Bool, true, ◌&&◌}
use mathlib.Core.List.{List, [], ◌∷◌, ◌++◌}
use mathlib.Core.Option.{Option, none, some}
use native.Mathlib.Omega.{arith}
use lantern_remote.Common.Tests.{if◌then◌else◌}

module _ {ℓ} {A : Type ℓ} where
  abbrev pub length : List A → ℕ
  length [] = 0
  length (x ∷ xs) = suc (length xs)

  abbrev pub take : ℕ → List A → List A
  take zero xs = []
  take (suc n) [] = []
  take (suc n) (x ∷ xs) = x ∷ take n xs

  abbrev pub drop : ℕ → List A → List A
  drop zero xs = xs
  drop (suc n) [] = []
  drop (suc n) (x ∷ xs) = drop n xs

  abbrev pub replicate : ℕ → A → List A
  replicate zero a = []
  replicate (suc n) a = a ∷ replicate n a

  abbrev pub get_elem? : List A → ℕ → Option A
  get_elem? [] i = none
  get_elem? (x ∷ xs) zero = some x
  get_elem? (x ∷ xs) (suc i) = get_elem? xs i

  -- `s.slice(from, to)` for 0 ≤ from ≤ to.
  abbrev pub slice : ℕ → ℕ → List A → List A
  slice from to xs = take (to - from) (drop from xs)

  -- `xs.filter(p)`
  abbrev pub keep : (A → Bool) → List A → List A
  keep p [] = []
  keep p (x ∷ xs) = let rest = keep p xs in if p x then x ∷ rest else rest

  abbrev pub every : (A → Bool) → List A → Bool
  every p [] = true
  every p (x ∷ xs) = p x && every p xs

  -- `P` holds of every element.
  abbrev pub All {κ} : (A → Type κ) → List A → Type κ
  All P [] = Unit
  All P (x ∷ xs) = P x × All P xs

  pub All-append {κ} : (P : A → Type κ) (xs ys : List A) → All P xs → All P ys → All P (xs ++ ys)
  All-append P [] ys h k = k
  All-append P (x ∷ xs) ys (p, h) k = (p, All-append P xs ys h k)

  pub length-append : (xs ys : List A) → length (xs ++ ys) ≡ length xs + length ys
  length-append [] ys = omega arith
  length-append (x ∷ xs) ys = omega (arith, length-append xs ys)

  pub length-take : (n : ℕ) (xs : List A) → length (take n xs) ≡ min n (length xs)
  length-take zero xs = omega arith
  length-take (suc n) [] = omega arith
  length-take (suc n) (x ∷ xs) = omega (arith, length-take n xs)

  pub length-replicate : (n : ℕ) (a : A) → length (replicate n a) ≡ n
  length-replicate zero a = refl
  length-replicate (suc n) a = omega (arith, length-replicate n a)

  pub take-eq_self : (n : ℕ) (xs : List A) → length xs ≤ n → take n xs ≡ xs
  take-eq_self zero [] h = refl
  take-eq_self zero (x ∷ xs) h = absurd (omega arith)
  take-eq_self (suc n) [] h = refl
  take-eq_self (suc n) (x ∷ xs) h = ground (arith, take-eq_self n xs)

  module _ (p : A → Bool) where
    pub every-keep : (xs : List A) → every p (keep p xs) ≡ true
    every-keep [] = refl
    every-keep (x ∷ xs) = ground (arith, every-keep xs)

    pub keep-eq_self : (xs : List A) → every p xs ≡ true → keep p xs ≡ xs
    keep-eq_self [] h = refl
    keep-eq_self (x ∷ xs) h = ground (arith, keep-eq_self xs)

    pub every-keep_by :
        (q : A → Bool) (xs : List A) → every p xs ≡ true → every p (keep q xs) ≡ true
    every-keep_by q [] h = refl
    every-keep_by q (x ∷ xs) h = ground (arith, every-keep_by q xs)

    pub every-append :
        (xs ys : List A) → every p xs ≡ true → every p ys ≡ true → every p (xs ++ ys) ≡ true
    every-append [] ys h k = k
    every-append (x ∷ xs) ys h k = ground (arith, every-append xs ys)

    pub every-take : (n : ℕ) (xs : List A) → every p xs ≡ true → every p (take n xs) ≡ true
    every-take zero xs h = refl
    every-take (suc n) [] h = refl
    every-take (suc n) (x ∷ xs) h = ground (arith, every-take n xs)

    pub every-replicate : (n : ℕ) (a : A) → p a ≡ true → every p (replicate n a) ≡ true
    every-replicate zero a h = refl
    every-replicate (suc n) a h = ground (arith, every-replicate n a)

    pub keep-append : (xs ys : List A) → keep p (xs ++ ys) ≡ keep p xs ++ keep p ys
    keep-append [] ys = refl
    keep-append (x ∷ xs) ys = ground (arith, keep-append xs ys)
