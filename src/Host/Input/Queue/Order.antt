-- ===== src/Host/Input/Queue/Order.antt =====
-- The order in which the commands run.
use lantern_remote.Host.Input.Queue.{
  Link, turn, Chain, run, fire, Turn, settle, enqueues, is_settled, is_waiting, fires, ends,
}
use lantern_remote.Common.{
  ◌≡◌, refl, ℕ, zero, suc, ◌<◌, Bool, true, false, List, [], ◌∷◌, Option, some, arith, Text, every,
  get_elem?, if◌then◌else◌,
}

abbrev pub waits : Link → Bool
waits link = is_waiting link.state

-- Settled links, then one at most that runs, then links that wait.
unfoldable pub is_queue : Chain → Bool
is_queue [] = true
is_queue (link ∷ rest) = if is_settled link.state then is_queue rest else every waits rest

every-fire : (i : ℕ) (c : Chain) → every waits c ≡ true → fire false i c ≡ c
unfolding fire
every-fire i [] h = refl
every-fire zero (link ∷ rest) h = refl
every-fire (suc i) (link ∷ rest) h = ground (arith, every-fire i rest)

every-settle :
    (failure : Option Text) (i : ℕ) (c : Chain) → every waits c ≡ true → settle failure i c ≡ c
unfolding settle
every-settle failure i [] h = refl
every-settle failure zero (link ∷ rest) h = ground arith
every-settle failure (suc i) (link ∷ rest) h = ground (arith, every-settle failure i rest)

is_queue-waits : (c : Chain) → every waits c ≡ true → is_queue c ≡ true
unfolding is_queue
is_queue-waits [] h = refl
is_queue-waits (link ∷ rest) h = ground arith

is_queue-fire : (i : ℕ) (c : Chain) → is_queue c ≡ true → is_queue (fire true i c) ≡ true
unfolding is_queue fire
is_queue-fire i [] h = refl
is_queue-fire zero (link ∷ rest) h = ground arith
is_queue-fire (suc i) (link ∷ rest) h = ground (arith, is_queue-fire i rest, every-fire i rest)

is_queue-settle :
    (failure : Option Text) (i : ℕ) (c : Chain)
    → is_queue c ≡ true
    → is_queue (settle failure i c) ≡ true
unfolding is_queue settle
is_queue-settle failure i [] h = refl
is_queue-settle failure zero (link ∷ rest) h = ground (arith, is_queue-waits rest)
is_queue-settle failure (suc i) (link ∷ rest) h =
    ground (arith, is_queue-settle failure i rest, every-settle failure i rest)

every-snoc :
    (args : List Text) (c : Chain)
    → every waits c ≡ true
    → every waits (turn (enqueues args) c) ≡ true
unfolding turn
every-snoc args [] h = refl
every-snoc args (link ∷ rest) h = ground (arith, every-snoc args rest)

is_queue-snoc :
    (args : List Text) (c : Chain) → is_queue c ≡ true → is_queue (turn (enqueues args) c) ≡ true
unfolding is_queue turn
is_queue-snoc args [] h = refl
is_queue-snoc args (link ∷ rest) h = ground (arith, is_queue-snoc args rest, every-snoc args rest)

pub is_queue-run : (ts : List Turn) → is_queue (run ts) ≡ true
unfolding run turn
is_queue-run [] = unfold is_queue in refl
is_queue-run (enqueues args ∷ ts) = is_queue-snoc args (run ts) (is_queue-run ts)
is_queue-run (fires i ∷ ts) = is_queue-fire i (run ts) (is_queue-run ts)
is_queue-run (ends i failure ∷ ts) = is_queue-settle failure i (run ts) (is_queue-run ts)

every-get_elem? :
    (c : Chain) (i : ℕ) (a : Link)
    → every waits c ≡ true
    → get_elem? c i ≡ some a
    → is_waiting a.state ≡ true
every-get_elem? [] i a h e = absurd (cc)
every-get_elem? (link ∷ rest) zero a h e = ground arith
every-get_elem? (link ∷ rest) (suc i) a h e = ground (arith, every-get_elem? rest i a)

is_queue-get_elem? :
    (c : Chain) (i j : ℕ) (a b : Link)
    → is_queue c ≡ true
    → i < j
    → get_elem? c i ≡ some a
    → get_elem? c j ≡ some b
    → is_waiting b.state ≡ false
    → is_settled a.state ≡ true
unfolding is_queue
is_queue-get_elem? [] i j a b q l e f h = absurd (cc)
is_queue-get_elem? (link ∷ rest) i zero a b q l e f h = absurd (omega arith)
is_queue-get_elem? (link ∷ rest) zero (suc j) a b q l e f h =
    ground (arith, every-get_elem? rest j b)
is_queue-get_elem? (link ∷ rest) (suc i) (suc j) a b q l e f h =
    ground
      (arith, is_queue-get_elem? rest i j a b, every-get_elem? rest i a, every-get_elem? rest j b)

-- Whenever a command runs or has run, every command that was enqueued before it has settled: one
-- runs at a time, in the order of the calls, and none overtakes another.
pub none_overtakes :
    (ts : List Turn) (i j : ℕ) (a b : Link)
    → i < j
    → get_elem? (run ts) i ≡ some a
    → get_elem? (run ts) j ≡ some b
    → is_waiting b.state ≡ false
    → is_settled a.state ≡ true
none_overtakes ts i j a b l e f h = is_queue-get_elem? (run ts) i j a b (is_queue-run ts) l e f h
