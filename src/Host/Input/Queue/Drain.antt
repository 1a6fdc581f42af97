-- ===== src/Host/Input/Queue/Drain.antt =====
-- Every command that is enqueued is run and settles, however its predecessors end.
use lantern_remote.Host.Input.Queue.{
  Link, turn, Chain, fire, Turn, settle, LinkState, enqueues, run, is_settled, settled, fires, ends,
}
use lantern_remote.Host.Input.Queue.{
  LinkState, waiting, running, settled, Link, Chain, fire, settle, Turn, enqueues, fires, ends,
  turn, run, is_settled,
}
use lantern_remote.Common.{
  ◌≡◌, ◌≢◌, refl, ℕ, zero, suc, ◌+◌, Bool, true, false, List, [], ◌∷◌, ◌++◌, Option, none, arith,
  Text, every, length, ◌⊎◌, inl, inr, ap,
}

-- The turns that the links still need: two that wait, one that runs.
abbrev pub needs : LinkState → ℕ
needs waiting = 2
needs running = 1
needs (settled failure) = 0

unfoldable pub remaining : Chain → ℕ
remaining [] = 0
remaining (link ∷ rest) = needs link.state + remaining rest

abbrev pub settles : Link → Bool
settles link = is_settled link.state

abbrev pub is_enqueue : Turn → Bool
is_enqueue (enqueues args) = true
is_enqueue _ = false

-- A turn of the loop itself that the chain allows.
abbrev pub IsProgress : Turn → Chain → Type 0
IsProgress t c = (is_enqueue t ≡ false) × (turn t c ≢ c)

-- Each turn of `later`, the last first, is progress after those before it.
abbrev pub AreProgress : (later ts : List Turn) → Type 0
AreProgress [] ts = Unit {0}
AreProgress (t ∷ later) ts = IsProgress t (run (later ++ ts)) × AreProgress later ts

remaining-fire :
    (b : Bool) (i : ℕ) (c : Chain) → (fire b i c ≡ c) ⊎ (suc (remaining (fire b i c)) ≡ remaining c)
unfolding fire remaining
remaining-fire b i [] = inl refl
remaining-fire true zero (link ∷ rest) = ground arith
remaining-fire false zero (link ∷ rest) = inl refl
remaining-fire b (suc i) (link ∷ rest) =
    ground (arith, remaining-fire (is_settled link.state) i rest)

remaining-settle :
    (failure : Option Text) (i : ℕ) (c : Chain)
    → (settle failure i c ≡ c) ⊎ (suc (remaining (settle failure i c)) ≡ remaining c)
unfolding settle remaining
remaining-settle failure i [] = inl refl
remaining-settle failure zero (link ∷ rest) = ground arith
remaining-settle failure (suc i) (link ∷ rest) = ground (arith, remaining-settle failure i rest)

remaining-turn : (t : Turn) (c : Chain) → IsProgress t c → suc (remaining (turn t c)) ≡ remaining c
unfolding turn
remaining-turn (enqueues args) c (h, k) = absurd (cc)
remaining-turn (fires i) c (h, k) = elim (remaining-fire true i c) [
  | inl e ↦ absurd (k e)
  | inr e ↦ e
]
remaining-turn (ends i failure) c (h, k) = elim (remaining-settle failure i c) [
  | inl e ↦ absurd (k e)
  | inr e ↦ e
]

-- All have settled, or the loop can run one more turn.
abbrev Next : Chain → Type 0
Next c =
    (every settles c ≡ true)
    ⊎ ((i : ℕ) × (suc (remaining (fire true i c)) ≡ remaining c))
    ⊎ ((i : ℕ) × (suc (remaining (settle none i c)) ≡ remaining c))

next-settled :
    (args : List Text) (failure : Option Text) (rest : Chain)
    → Next rest
    → Next (record { args = args; state = settled failure } ∷ rest)
unfolding fire settle remaining
next-settled args failure rest (inl h) = inl h
next-settled args failure rest (inr (inl (i, h))) = inr (inl (suc i, omega arith))
next-settled args failure rest (inr (inr (i, h))) = inr (inr (suc i, omega arith))

next_of :
    (args : List Text) (s : LinkState) (rest : Chain)
    → Next rest
    → Next (record { args = args; state = s } ∷ rest)
unfolding fire settle remaining
next_of args waiting rest h = inr (inl (0, ground arith))
next_of args running rest h = inr (inr (0, ground arith))
next_of args (settled failure) rest h = next-settled args failure rest h

next : (c : Chain) → Next c
next [] = inl refl
next (link ∷ rest) = next_of link.args link.state rest (next rest)

remaining-IsProgress :
    (t : Turn) (c : Chain)
    → is_enqueue t ≡ false
    → suc (remaining (turn t c)) ≡ remaining c
    → IsProgress t c
remaining-IsProgress t c h e = (h, λ k. absurd (omega (arith, ap remaining k)))

ready : (c : Chain) → (every settles c ≡ true) ⊎ ((t : Turn) × IsProgress t c)
unfolding turn
ready c = elim (next c) [
  | inl h ↦ inl h
  | inr (inl (i, h)) ↦ inr (fires i, remaining-IsProgress (fires i) c refl h)
  | inr (inr (i, h)) ↦ inr (ends i none, remaining-IsProgress (ends i none) c refl h)
]

-- After any calls of `enqueue` and turns of the loop, each further turn leaves one fewer to come,
-- commands that fail included, and the loop goes on until every command has settled: no order of
-- turns goes on for ever, and none stops before.
pub queue_drains :
    (ts later : List Turn)
    → AreProgress later ts
    → (length later + remaining (run (later ++ ts)) ≡ remaining (run ts))
      × ((every settles (run (later ++ ts)) ≡ true)
          ⊎ ((t : Turn) × IsProgress t (run (later ++ ts))))
unfolding run
queue_drains ts [] h = (omega arith, ready (run ts))
queue_drains ts (t ∷ later) (p, h) = (
  omega (arith, remaining-turn t (run (later ++ ts)) p, (queue_drains ts later h).0),
  ready (run (t ∷ (later ++ ts))),
)
