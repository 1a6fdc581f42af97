-- ===== src/Host/Input/Queue/Answers.antt =====
-- What the callers of `enqueue` are answered.
use lantern_remote.Host.Input.Queue.{
  settled, Link, Chain, fire, settle, Turn, enqueues, fires, ends, turn, run, is_settled,
}
use mathlib.Core.List.{map-append}
use lantern_remote.Common.{
  subst, sym, ◌≡◌, refl, ℕ, zero, suc, Bool, true, false, List, [], ◌∷◌, ◌++◌, Option, some, arith,
  Text, get_elem?, map, ◌⊎◌, inl, inr, ◌∙◌,
}

-- The arguments of the calls of `enqueue`, in their order.
unfoldable pub calls : List Turn → List (List Text)
calls [] = []
calls (enqueues args ∷ ts) = calls ts ++ (args ∷ [])
calls (_ ∷ ts) = calls ts

-- The command of link `j` has ended, with this.
pub data Ended (j : ℕ) (failure : Option Text) : List Turn → Type 0 where
  here : {ts : List Turn} → Ended j failure (ends j failure ∷ ts)
  there : {t : Turn} {ts : List Turn} → Ended j failure ts → Ended j failure (t ∷ ts)

abbrev args_of : Link → List Text
args_of link = link.args

args-fire : (b : Bool) (i : ℕ) (c : Chain) → map args_of (fire b i c) ≡ map args_of c
unfolding fire
args-fire b i [] = refl
args-fire true zero (link ∷ rest) = ground arith
args-fire false zero (link ∷ rest) = refl
args-fire b (suc i) (link ∷ rest) = ground (arith, args-fire (is_settled link.state) i rest)

args-settle : (f : Option Text) (i : ℕ) (c : Chain) → map args_of (settle f i c) ≡ map args_of c
unfolding settle
args-settle f i [] = refl
args-settle f zero (link ∷ rest) = ground arith
args-settle f (suc i) (link ∷ rest) = ground (arith, args-settle f i rest)

args-run : (ts : List Turn) → map args_of (run ts) ≡ calls ts
unfolding run turn calls
args-run [] = refl
args-run (enqueues args ∷ ts) = simp (map-append, args-run ts)
args-run (fires i ∷ ts) = args-fire true i (run ts) ∙ args-run ts
args-run (ends i f ∷ ts) = args-settle f i (run ts) ∙ args-run ts

get_elem?-map :
    (c : Chain) (j : ℕ) (a : Link)
    → get_elem? c j ≡ some a
    → get_elem? (map args_of c) j ≡ some a.args
get_elem?-map [] j a e = absurd (cc)
get_elem?-map (link ∷ rest) zero a e = ground arith
get_elem?-map (link ∷ rest) (suc j) a e = get_elem?-map rest j a e

module _ (a : Link) (r : Option Text) (done : a.state ≡ settled r) where
  before-fire :
      (b : Bool) (i j : ℕ) (c : Chain) → get_elem? (fire b i c) j ≡ some a → get_elem? c j ≡ some a
  unfolding fire
  before-fire b i j [] e = e
  before-fire true zero zero (link ∷ rest) e = ground arith
  before-fire true zero (suc j) (link ∷ rest) e = e
  before-fire false zero j (link ∷ rest) e = e
  before-fire b (suc i) zero (link ∷ rest) e = e
  before-fire b (suc i) (suc j) (link ∷ rest) e = before-fire (is_settled link.state) i j rest e

  before-settle :
      (f : Option Text) (i j : ℕ) (c : Chain)
      → get_elem? (settle f i c) j ≡ some a
      → (get_elem? c j ≡ some a) ⊎ ((i ≡ j) × (f ≡ r))
  unfolding settle
  before-settle f i j [] e = inl e
  before-settle f zero zero (link ∷ rest) e = ground arith
  before-settle f zero (suc j) (link ∷ rest) e = inl e
  before-settle f (suc i) zero (link ∷ rest) e = inl e
  before-settle f (suc i) (suc j) (link ∷ rest) e = ground (arith, before-settle f i j rest)

  before-enqueue :
      (args : List Text) (j : ℕ) (c : Chain)
      → get_elem? (turn (enqueues args) c) j ≡ some a
      → get_elem? c j ≡ some a
  unfolding turn
  before-enqueue args zero [] e = ground arith
  before-enqueue args (suc j) [] e = absurd (cc)
  before-enqueue args zero (link ∷ rest) e = e
  before-enqueue args (suc j) (link ∷ rest) e = before-enqueue args j rest e

  ends-Ended :
      (i j : ℕ) (f : Option Text) (ts : List Turn)
      → (get_elem? (run ts) j ≡ some a → Ended j r ts)
      → (get_elem? (run ts) j ≡ some a) ⊎ ((i ≡ j) × (f ≡ r))
      → Ended j r (ends i f ∷ ts)
  ends-Ended i j f ts before (inl e) = there (before e)
  ends-Ended i j f ts before (inr (p, q)) =
      subst (λ k. Ended j r (ends k f ∷ ts)) (sym p)
        (subst (λ g. Ended j r (ends j g ∷ ts)) (sym q) here)

  settled-Ended : (ts : List Turn) (j : ℕ) → get_elem? (run ts) j ≡ some a → Ended j r ts
  unfolding run turn
  settled-Ended [] j e = absurd (cc)
  settled-Ended (enqueues args ∷ ts) j e =
      there (settled-Ended ts j (before-enqueue args j (run ts) e))
  settled-Ended (fires i ∷ ts) j e = there (settled-Ended ts j (before-fire true i j (run ts) e))
  settled-Ended (ends i f ∷ ts) j e =
      ends-Ended i j f ts (settled-Ended ts j) (before-settle f i j (run ts) e)

-- The call of `enqueue` that was the `j`-th is answered by what its own command ended with,
-- whatever the commands before it ended with.
pub own_answer :
    (ts : List Turn) (j : ℕ) (a : Link) (r : Option Text)
    → get_elem? (run ts) j ≡ some a
    → a.state ≡ settled r
    → (get_elem? (calls ts) j ≡ some a.args) × Ended j r ts
own_answer ts j a r e done =
    (rw (← args-run ts) (get_elem?-map (run ts) j a e), settled-Ended a r done ts j e)

settled-fire :
    (b : Bool) (i j : ℕ) (c : Chain) (a : Link)
    → get_elem? c j ≡ some a
    → is_settled a.state ≡ true
    → get_elem? (fire b i c) j ≡ some a
unfolding fire
settled-fire b i j [] a e h = e
settled-fire true zero zero (link ∷ rest) a e h = ground arith
settled-fire true zero (suc j) (link ∷ rest) a e h = e
settled-fire false zero j (link ∷ rest) a e h = e
settled-fire b (suc i) zero (link ∷ rest) a e h = e
settled-fire b (suc i) (suc j) (link ∷ rest) a e h =
    settled-fire (is_settled link.state) i j rest a e h

settled-settle :
    (failure : Option Text) (i j : ℕ) (c : Chain) (a : Link)
    → get_elem? c j ≡ some a
    → is_settled a.state ≡ true
    → get_elem? (settle failure i c) j ≡ some a
unfolding settle
settled-settle failure i j [] a e h = e
settled-settle failure zero zero (link ∷ rest) a e h = ground arith
settled-settle failure zero (suc j) (link ∷ rest) a e h = e
settled-settle failure (suc i) zero (link ∷ rest) a e h = e
settled-settle failure (suc i) (suc j) (link ∷ rest) a e h = settled-settle failure i j rest a e h

get_elem?-snoc :
    (c : Chain) (l : Link) (j : ℕ) (a : Link)
    → get_elem? c j ≡ some a
    → get_elem? (c ++ (l ∷ [])) j ≡ some a
get_elem?-snoc [] l j a e = absurd (cc)
get_elem?-snoc (link ∷ rest) l zero a e = e
get_elem?-snoc (link ∷ rest) l (suc j) a e = get_elem?-snoc rest l j a e

settled-turn :
    (t : Turn) (j : ℕ) (c : Chain) (a : Link)
    → get_elem? c j ≡ some a
    → is_settled a.state ≡ true
    → get_elem? (turn t c) j ≡ some a
unfolding turn
settled-turn (enqueues args) j c a e h = get_elem?-snoc c _ j a e
settled-turn (fires i) j c a e h = settled-fire true i j c a e h
settled-turn (ends i failure) j c a e h = settled-settle failure i j c a e h

-- An answer stands: no later call or turn changes it.
pub answer_stands :
    (ts later : List Turn) (j : ℕ) (a : Link)
    → get_elem? (run ts) j ≡ some a
    → is_settled a.state ≡ true
    → get_elem? (run (later ++ ts)) j ≡ some a
unfolding run
answer_stands ts [] j a e h = e
answer_stands ts (t ∷ later) j a e h =
    settled-turn t j (run (later ++ ts)) a (answer_stands ts later j a e h) h
