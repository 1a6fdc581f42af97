-- ===== src/Host/Identity.antt =====
-- electron/services/DeviceIdentityService.ts: the device's own id, with the file that keeps it. The
-- promise of an attempt is its stage, with the callers that wait for it.
pub mod Answers
pub mod Stable
use lantern_remote.Common.{
  ℕ, ◌+◌, ◌≡◌, Bool, true, false, ◌&&◌, List, [], ◌∷◌, ◌++◌, map, Option, none, some, Text, ltb,
  eqb, length, every, if◌then◌else◌, ◌>>=◌,
}
use lantern_remote.Value.{Value, string, object, field, end, read, as_string}
use lantern_remote.Shared.Signaling.{as_record}
use lantern_remote.Shared.DeviceId.{parse_device_id, format_device_id, device_id_digit_count}

-- `loadOrCreate` before and after it has read the file.
pub data Attempt : Type 0 where
  loading : Attempt
  storing : (digits : Text) → Attempt

pub record DeviceIdentityService : Type 0 where
  pub cached_id : Option Text
  pub pending : Option Attempt
  pub waiting : List ℕ
  pub file : Option Text

abbrev pub started : (file : Option Text) → DeviceIdentityService
started file = record { cached_id = none; pending = none; waiting = []; file = file }

pub data IdentityEvent : Type 0 where
  get_device_id : (caller : ℕ) → IdentityEvent
  -- The file has been read, or it could not be; with the random numbers that may be drawn then.
  file_read : (readable : Bool) (draws : List ℕ) → IdentityEvent
  file_renamed attempt_failed : IdentityEvent

-- A caller and the id that it gets, or none if its promise is rejected.
abbrev pub Answer : Type 0
Answer = ℕ × Option Text

-- `generateDigits`
abbrev pub generate_digits : (draws : List ℕ) → Text
generate_digits draws = map (λ n. b'0' + n) draws

-- What `randomInt(0, 10)` gives in nine rounds.
abbrev pub is_drawn : List ℕ → Bool
is_drawn draws = eqb (length draws) device_id_digit_count && every (λ n. ltb n 10) draws

abbrev pub answers : List ℕ → Option Text → List Answer
answers callers id = map (λ caller. (caller, id)) callers

-- The two handlers of the attempt's end.
abbrev pub finish : Text → DeviceIdentityService → DeviceIdentityService × List Answer
finish digits s = (
  record s { cached_id = some (format_device_id digits); pending = none; waiting = [] },
  answers s.waiting (some (format_device_id digits)),
)

abbrev pub give_up : DeviceIdentityService → DeviceIdentityService × List Answer
give_up s = (record s { pending = none; waiting = [] }, answers s.waiting none)

-- A new attempt if none is pending.
abbrev pub begun : Option Attempt → Option Attempt
begun none = some loading
begun (some a) = some a

-- What is written to the file.
abbrev pub body : Text → Value
body digits = object (field "deviceId" (string digits) end)

unfoldable pub read_stored : (parse_json : Text → Option Value) → (file : Option Text) → Option Text
read_stored parse_json file = do
  raw ← file
  parsed ← parse_json raw
  fs ← as_record parsed
  id ← as_string (read "deviceId" fs)
  parse_device_id id

abbrev pub loaded :
    Option Text → List ℕ → DeviceIdentityService → DeviceIdentityService × List Answer
loaded (some digits) draws s = finish digits s
loaded none draws s = (record s { pending = some (storing (generate_digits draws)) }, [])

abbrev pub when_readable : Bool → Option Text → Option Text
when_readable true file = file
when_readable false file = none

module _ (parse_json : Text → Option Value) (stringify : Value → Text) where
  -- The steps of the attempt that is pending, if it has come that far.
  unfoldable pub on_read :
      Option Attempt
      → (readable : Bool) (draws : List ℕ) → DeviceIdentityService
      → DeviceIdentityService × List Answer
  on_read (some loading) readable draws s =
      loaded (read_stored parse_json (when_readable readable s.file)) draws s
  on_read _ readable draws s = (s, [])

  unfoldable pub on_renamed :
      Option Attempt → DeviceIdentityService → DeviceIdentityService × List Answer
  on_renamed (some (storing digits)) s =
      finish digits (record s { file = some (stringify (body digits)) })
  on_renamed _ s = (s, [])

  unfoldable pub on_failed :
      Option Attempt → DeviceIdentityService → DeviceIdentityService × List Answer
  on_failed none s = (s, [])
  on_failed (some a) s = give_up s

  unfoldable pub step : IdentityEvent → DeviceIdentityService → DeviceIdentityService × List Answer
  unfolding on_read on_renamed on_failed
  step (get_device_id caller) s = elim s.cached_id [
    | some id ↦ (s, (caller, some id) ∷ [])
    | none ↦ (record s { pending = begun s.pending; waiting = s.waiting ++ (caller ∷ []) }, [])
  ]
  step (file_read readable draws) s = on_read s.pending readable draws s
  step file_renamed s = on_renamed s.pending s
  step attempt_failed s = on_failed s.pending s

  -- The service after the events of a list, the last one first, and all answers so far.
  unfoldable pub run : (file : Option Text) → List IdentityEvent → DeviceIdentityService
  run file [] = started file
  run file (e ∷ past) = (step e (run file past)).0

  unfoldable pub answered : (file : Option Text) → List IdentityEvent → List Answer
  unfolding run
  answered file [] = []
  answered file (e ∷ past) = (step e (run file past)).1 ++ answered file past
