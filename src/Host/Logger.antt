-- ===== src/Host/Logger.antt =====
-- electron/services/Logger.ts: what a call of the logger writes. The work on the files that `write` does not wait for is a number of jobs that run later.
pub mod Rotation
use lantern_remote.Common.{
  ℕ, suc, ◌+◌, ◌-◌, ◌≡◌, refl, Bool, true, false, not, ◌&&◌, ◌||◌, List, [], ◌∷◌, ◌++◌, Option,
  none, some, Text, ltb, leb, eqb, if◌then◌else◌, arith, ◌≤◌, every, ◌*◌,
}

pub data LogLevel : Type 0 where
  debug info warn error : LogLevel

abbrev pub level_order : LogLevel → ℕ
level_order debug = 0
level_order info = 1
level_order warn = 2
level_order error = 3

abbrev pub max_log_size : ℕ
max_log_size = 5 * 1024 * 1024

abbrev pub max_log_files : ℕ
max_log_files = 3

pub record Logger : Type 0 where
  pub min_level : LogLevel
  pub log_file_path : Option Text
  pub initialized : Bool
  pub jobs : ℕ

abbrev pub new_logger : (min_level : LogLevel) → Logger
new_logger min_level = record {
  min_level = min_level;
  log_file_path = none;
  initialized = false;
  jobs = 0;
}

pub data Output : Type 0 where
  console : LogLevel → Output
  append_file : (path : Text) → Output

abbrev pub is_error : LogLevel → Bool
is_error error = true
is_error level = false

abbrev pub has_path : Option Text → Bool
has_path none = false
has_path (some path) = true

-- `write`: `development` is what `isDevelopment` gives.
unfoldable pub write : (development : Bool) → LogLevel → Logger → Logger × List Output
write development level s = if ltb (level_order level) (level_order s.min_level) then (s, []) else (
  if not development && has_path s.log_file_path then record s { jobs = suc s.jobs } else s,
  if development || is_error level then console level ∷ [] else [],
)

-- `ensureInitialized`: `made` is the path in the directory, if it could be made.
unfoldable pub ensure_initialized : (development : Bool) (made : Option Text) → Logger → Logger
ensure_initialized development made s =
    if s.initialized
    then s
    else (if development then record s { initialized = true } else record s {
      initialized = true;
      log_file_path = elim made [ none ↦ s.log_file_path | some p ↦ some p ];
    })

abbrev pub append_to : Option Text → List Output
append_to none = []
append_to (some path) = append_file path ∷ []

-- One job of `write`, if there is one left.
unfoldable pub file_job : (development : Bool) (made : Option Text) → Logger → Logger × List Output
unfolding ensure_initialized
file_job development made s =
    let ready = ensure_initialized development made s in
    if eqb s.jobs 0
    then (s, [])
    else (record ready { jobs = s.jobs - 1 }, append_to ready.log_file_path)

pub data LogEvent : Type 0 where
  written : (development : Bool) → LogLevel → LogEvent
  job_runs : (development : Bool) (made : Option Text) → LogEvent

unfoldable pub step : LogEvent → Logger → Logger × List Output
unfolding write file_job
step (written development level) s = write development level s
step (job_runs development made) s = file_job development made s

-- The logger after the events of a list, the last one first, and all that it has put out.
unfoldable pub run : (min_level : LogLevel) → List LogEvent → Logger
run min_level [] = new_logger min_level
run min_level (e ∷ past) = (step e (run min_level past)).0

unfoldable pub outputs : (min_level : LogLevel) → List LogEvent → List Output
unfolding run
outputs min_level [] = []
outputs min_level (e ∷ past) = (step e (run min_level past)).1 ++ outputs min_level past

abbrev pub is_console : Output → Bool
is_console (console level) = true
is_console (append_file path) = false

is_idle :
    (min_level : LogLevel) (events : List LogEvent)
    → ((run min_level events).log_file_path ≡ none) × ((run min_level events).jobs ≡ 0)
unfolding run step write file_job
is_idle min_level [] = (refl, refl)
is_idle min_level (written d level ∷ past) = ground (arith, is_idle min_level past)
is_idle min_level (job_runs d made ∷ past) = ground (arith, is_idle min_level past)

-- Whatever is logged, in development or not, and wherever directories can be made, only the console
-- is written to: no file ever is.
pub only_console_is_written :
    (min_level : LogLevel) (events : List LogEvent)
    → every is_console (outputs min_level events) ≡ true
unfolding outputs step write file_job
only_console_is_written min_level [] = refl
only_console_is_written min_level (written d level ∷ past) =
    ground (arith, is_idle min_level past, only_console_is_written min_level past)
only_console_is_written min_level (job_runs d made ∷ past) =
    ground (arith, is_idle min_level past, only_console_is_written min_level past)
