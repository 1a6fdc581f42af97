-- ===== src/Common/Tests.antt =====
-- Boolean tests on the native numbers, the conditional, and texts with their equality.
use Prim.Native.Nat.{ℕ, compare, Ordering}
use Prim.Native.Char.{code}
use Prim.Native.String.{String}
use mathlib.Core.Path.{◌≡◌, refl}
use mathlib.Core.Logic.{◌⊎◌, inl, inr, ◌≢◌}
use mathlib.Core.Bool.{Bool, true, false}
use mathlib.Core.Option.{Option, none, some}
use mathlib.Core.List.{List, [], ◌∷◌}
use native.Mathlib.Omega.{arith}
unfoldable pub use native.Mathlib.Decide.{ℕ_discrete}

abbrev pub ltb : ℕ → ℕ → Bool
ltb a b = elim (compare a b) [ Ordering.lt ↦ true | _ ↦ false ]

abbrev pub leb : ℕ → ℕ → Bool
leb a b = elim (compare a b) [ Ordering.gt ↦ false | _ ↦ true ]

abbrev pub eqb : ℕ → ℕ → Bool
eqb a b = elim (compare a b) [ Ordering.eq ↦ true | _ ↦ false ]

infix 1 if◌then◌else◌
abbrev pub if◌then◌else◌ {ℓ} : {A : Type ℓ} → Bool → A → A → A
if true then x else y = x
if false then x else y = y

pub Bool-cases : (b : Bool) → (b ≡ true) ⊎ (b ≡ false)
Bool-cases true = inl refl
Bool-cases false = inr refl

pub Option-cases {ℓ} : {A : Type ℓ} (o : Option A) → (o ≡ none) ⊎ ((a : A) × (o ≡ some a))
Option-cases none = inl refl
Option-cases (some a) = inr (a, refl)

-- A JavaScript string: its UTF-16 code units.
abbrev pub Text : Type 0
Text = List ℕ

abbrev codes : String → List ℕ
codes String.[] = []
codes (String.◌∷◌ c s) = code c ∷ codes s

-- A literal of the source, all of which are ASCII.
unfoldable pub text : String → Text
text s = codes s

cons_ne_nil : {a : ℕ} {s : Text} → a ∷ s ≢ []
cons_ne_nil e = cc

nil_ne_cons : {a : ℕ} {s : Text} → [] ≢ a ∷ s
nil_ne_cons e = cc

cons-cons : {a b : ℕ} {s t : Text} → a ≡ b → s ≡ t → a ∷ s ≡ b ∷ t
cons-cons p q = cc

ne_of_head : {a b : ℕ} {s t : Text} → a ≢ b → a ∷ s ≢ b ∷ t
ne_of_head h e = h (cc)

ne_of_tail : {a b : ℕ} {s t : Text} → s ≢ t → a ∷ s ≢ b ∷ t
ne_of_tail h e = h (cc)

unfoldable pub Text-discrete : Discrete Text
unfolding ℕ_discrete nil_ne_cons cons_ne_nil cons-cons ne_of_tail ne_of_head
Text-discrete [] [] = yes refl
Text-discrete [] (b ∷ t) = no nil_ne_cons
Text-discrete (a ∷ s) [] = no cons_ne_nil
Text-discrete (a ∷ s) (b ∷ t) = elim (ℕ_discrete a b) [
  | yes p ↦ elim (Text-discrete s t) [ yes q ↦ yes (cons-cons p q) | no q ↦ no (ne_of_tail q) ]
  | no p ↦ no (ne_of_head p)
]

infix 50 ◌==◌
abbrev pub ◌==◌ : Text → Text → Bool
a == b = elim (Text-discrete a b) [ yes _ ↦ true | no _ ↦ false ]

-- A string that is not `null` and not empty, as `if (!s) return null` leaves it.
abbrev pub present : Option Text → Option Text
present (some (c ∷ s)) = some (c ∷ s)
present _ = none

infixl 5 ◌>>=◌ ◌>>◌
abbrev pub ◌>>=◌ {ℓ κ} : {A : Type ℓ} {B : Type κ} → Option A → (A → Option B) → Option B
none >>= f = none
some a >>= f = f a

abbrev pub ◌>>◌ {ℓ} : {B : Type ℓ} → Option (Unit {0}) → Option B → Option B
m >> k = m >>= λ _. k

-- `if (!b) return null`
abbrev pub guard : Bool → Option (Unit {0})
guard true = some tt
guard false = none

-- A chain that succeeds has succeeded at its first step.
pub >>=-eq-some {ℓ κ} :
    {A : Type ℓ} {B : Type κ} (m : Option A) (f : A → Option B) {b : B}
    → (m >>= f) ≡ some b
    → (a : A) × (m ≡ some a) × (f a ≡ some b)
>>=-eq-some none f h = absurd (cc)
>>=-eq-some (some a) f h = (a, refl, h)

pub present-eq_some : (o : Option Text) (t : Text) → present o ≡ some t → (o ≡ some t) × (t ≢ [])
present-eq_some none t h = absurd (cc)
present-eq_some (some []) t h = absurd (cc)
present-eq_some (some (c ∷ u)) t h = (h, ground arith)
