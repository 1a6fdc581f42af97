-- ===== src/Client/ConnectionCode.antt =====
-- src/hooks/useConnectionToken.ts and the countdown of src/components/ConnectionTokenCard.tsx: the
-- connection code that the host's window shows. React renders what has changed, and runs the effects
-- some time later.
use lantern_remote.Host.TokenService.{clear, ConnectionTokenService}
use lantern_remote.Common.{
  ℕ, ◌+◌, ◌-◌, ◌/◌, ◌%◌, ◌<◌, ◌≡◌, refl, Bool, true, false, List, [], ◌∷◌, ◌++◌, Option, none, some,
  arith, Text, text, leb, eqb, if◌then◌else◌, ◌≢◌,
}
use lantern_remote.Shared.ConnectionToken.{ConnectionTokenInfo}
use lantern_remote.Client.Store.{ConnectionState, initial, reset}

-- `ticking`: the timer that renews `now` each second is set; `pending`: the effects of what was last
-- rendered have not run yet.
pub record TokenHook : Type 0 where
  pub store : ConnectionState
  pub now : ℕ
  pub ticking : Bool
  pub pending : Bool

abbrev pub set_token : Option Text → Option ℕ → TokenHook → TokenHook
set_token code expires_at h = record h {
  store = record h.store { token_code = code; token_expires_at = expires_at };
  pending = true;
}

-- `code && expiresAt`: a code that is not empty, and a time that is not 0.
abbrev pub live_until : Option Text → Option ℕ → Option ℕ
live_until (some (c ∷ code)) (some at) = if eqb at 0 then none else some at
live_until _ _ = none

abbrev pub is_past : (now : ℕ) → Option ℕ → Bool
is_past now none = false
is_past now (some at) = leb at now

abbrev pub shows : Option Text → Bool
shows (some (c ∷ code)) = true
shows _ = false

-- The timer is set as long as a code is shown.
abbrev pub timed : TokenHook → TokenHook
timed h = record h { ticking = shows h.store.token_code; pending = false }

-- An expired code is dropped, and this is rendered in turn.
abbrev pub dropped : TokenHook → TokenHook
dropped h =
    if is_past h.now (live_until h.store.token_code h.store.token_expires_at)
    then set_token none none h
    else h

-- Both effects, in their order.
unfoldable pub effects_of : TokenHook → TokenHook
effects_of h = dropped (timed h)

unfoldable pub remaining_ms : TokenHook → Option ℕ
remaining_ms h = elim (live_until h.store.token_code h.store.token_expires_at) [
  | none ↦ none
  | some at ↦ some (at - h.now)
]

pub data CodeEvent : Type 0 where
  effects : CodeEvent
  -- The timer, at a time; an event without it is none.
  ticks : (now : ℕ) → CodeEvent
  -- The answer of the main process to `ensure` or `regenerate`, at a time.
  answers : ConnectionTokenInfo → (now : ℕ) → CodeEvent
  revokes : CodeEvent
  -- The session takes the code away: it is consumed, or the session ends.
  consumed session_reset : CodeEvent

abbrev pub sync : ConnectionTokenInfo → (now : ℕ) → TokenHook → TokenHook
sync info now h = record (set_token (some info.code) (some info.expires_at) h) { now = now }

unfoldable pub step : CodeEvent → TokenHook → TokenHook
unfolding effects_of
step effects h = effects_of h
step (ticks now) h = if h.ticking then record h { now = now; pending = true } else h
step (answers info now) h = sync info now h
step revokes h = set_token none none h
step consumed h = set_token none none h
step session_reset h = record h { store = reset h.store; pending = true }

-- The last event first; the hook is first rendered at `now`.
unfoldable pub run : (now : ℕ) → List CodeEvent → TokenHook
run now [] = record { store = initial; now = now; ticking = false; pending = true }
run now (e ∷ past) = step e (run now past)

-- `String(n).padStart(2, '0')` for what is below 100
abbrev pub two_digits : ℕ → Text
two_digits n = (b'0' + n / 10) ∷ ((b'0' + n % 10) ∷ [])

-- `decimal` writes the minutes.
unfoldable pub format_remaining : (decimal : ℕ → Text) → (ms : ℕ) → Text
unfolding text
format_remaining decimal ms =
    let seconds = ms / 1000 in decimal (seconds / 60) ++ (text ":" ++ two_digits (seconds % 60))

-- A code that is shown with all effects run has time left, and its timer is set.
abbrev IsLive : TokenHook → Type 0
IsLive h =
    h.pending ≡ false
    → (is_past h.now (live_until h.store.token_code h.store.token_expires_at) ≡ false)
      × (h.ticking ≡ shows h.store.token_code)

run-IsLive : (now : ℕ) (past : List CodeEvent) → IsLive (run now past)
unfolding run step
run-IsLive now [] = λ done. absurd (cc)
run-IsLive now (e ∷ past) = λ done. ground (arith, run-IsLive now past)

-- Whatever has happened, once React has run the effects of what it has rendered, the window counts
-- down only a code that has not expired at its time, at least a millisecond of which is left, and
-- the timer that will take the code away is set.
pub shown_is_live :
    (now : ℕ) (past : List CodeEvent) (n : ℕ)
    → (run now past).pending ≡ false
    → remaining_ms (run now past) ≡ some n
    → (0 < n) × ((run now past).ticking ≡ true)
unfolding remaining_ms
shown_is_live now past n done h = ground (arith, run-IsLive now past)

-- An answer that was asked for before a revocation and comes after it is shown, though the main
-- process has handled the revocation last and accepts the code no more.
answers-revokes :
    (now at : ℕ) (past : List CodeEvent) (info : ConnectionTokenInfo)
    (service : ConnectionTokenService)
    → info.code ≢ []
    → at < info.expires_at
    → ((run now (answers info at ∷ (revokes ∷ past))).store.token_code ≡ some info.code)
      × ((clear service).current ≡ none)
unfolding run step clear
answers-revokes now at past info service named live = (ground arith, refl)
