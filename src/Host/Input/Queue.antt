-- ===== src/Host/Input/Queue.antt =====
-- electron/services/input/LinuxInputAdapter.ts and MacOSInputAdapter.ts: the chain of promises on
-- which the commands run. Each call of `enqueue` adds a link, `queue.then(() => run(args))`; the
-- runtime runs its callback once the link before it has settled, however that was, since `queue`
-- catches it.
pub mod Order
pub mod Drain
pub mod Answers
use lantern_remote.Common.{
  ℕ, zero, suc, ◌+◌, Bool, true, false, not, List, [], ◌∷◌, ◌++◌, Option, none, some, Text,
  if◌then◌else◌, every,
}

-- A link waits for the one before it, runs its command, or has settled: `some` is the message of
-- the error with which it rejects its caller.
pub data LinkState : Type 0 where
  waiting running : LinkState
  settled : (failure : Option Text) → LinkState

pub record Link : Type 0 where
  pub args : List Text
  pub state : LinkState

-- Oldest first: `queue` is the last.
abbrev pub Chain : Type 0
Chain = List Link

abbrev pub is_waiting : LinkState → Bool
is_waiting waiting = true
is_waiting _ = false

abbrev pub is_settled : LinkState → Bool
is_settled (settled failure) = true
is_settled _ = false

abbrev pub started : Link → Link
started link = if is_waiting link.state then record link { state = running } else link

abbrev pub ended : Option Text → Link → Link
ended failure link = elim link.state [
  | running ↦ record link { state = settled failure }
  | _ ↦ link
]

-- The callback of a link runs, once the promise before it has settled.
unfoldable pub fire : (before : Bool) → ℕ → Chain → Chain
fire before i [] = []
fire true zero (link ∷ rest) = started link ∷ rest
fire false zero (link ∷ rest) = link ∷ rest
fire before (suc i) (link ∷ rest) = link ∷ fire (is_settled link.state) i rest

-- The command of a link ends.
unfoldable pub settle : Option Text → ℕ → Chain → Chain
settle failure i [] = []
settle failure zero (link ∷ rest) = ended failure link ∷ rest
settle failure (suc i) (link ∷ rest) = link ∷ settle failure i rest

pub data Turn : Type 0 where
  enqueues : (args : List Text) → Turn
  fires : (i : ℕ) → Turn
  ends : (i : ℕ) (failure : Option Text) → Turn

-- A turn of the runtime's loop: what it does not allow changes nothing.
unfoldable pub turn : Turn → Chain → Chain
turn (enqueues args) c = c ++ (record { args = args; state = waiting } ∷ [])
turn (fires i) c = fire true i c
turn (ends i failure) c = settle failure i c

-- The last turn first.
unfoldable pub run : List Turn → Chain
run [] = []
run (t ∷ ts) = turn t (run ts)
