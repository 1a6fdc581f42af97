-- ===== src/Host/Input/Runner.antt =====
-- electron/services/input/LinuxInputAdapter.ts and MacOSInputAdapter.ts: how a command ends, and
-- whether its program is there. What `execFile` and `execFileSync` answer is an argument, and so is
-- `trim`.
use lantern_remote.Common.{
  ◌≡◌, ◌↔◌, Bool, true, false, List, [], ◌∷◌, ◌++◌, Option, none, some, arith, Text, text, present,
  if◌then◌else◌, ℕ, ◌||◌, eqb, ◌&&◌, leb, ◌+◌,
}

-- What the callback of `execFile` is given: whether there is an error, and `stderr`.
pub record Exit : Type 0 where
  pub failed : Bool
  pub stderr : Option Text

-- `stderr?.toString().trim() ?? ''`
abbrev pub trimmed : (trim : Text → Text) → Option Text → Text
trimmed trim none = []
trimmed trim (some t) = trim t

-- `args[0]`, where absent is the empty text
abbrev pub subcommand_of : List Text → Text
subcommand_of [] = []
subcommand_of (first ∷ rest) = first

-- `name` is the program; the text after a colon is `stderr`, unless that is empty.
abbrev pub failure_of : (name stderr : Text) → Text
unfolding text
failure_of name [] = name ++ text " failed."
failure_of name (c ∷ stderr) = name ++ (text " failed: " ++ (c ∷ stderr))

abbrev pub xdotool : Text
unfolding text
xdotool = text "xdotool"

abbrev pub cliclick : Text
unfolding text
cliclick = text "cliclick"

-- `describeFailure` of the Linux adapter; `display` is the environment's `DISPLAY`.
abbrev pub describe_failure_in : (display : Option Text) (subcommand stderr : Text) → Text
unfolding text
describe_failure_in none subcommand stderr =
    text "xdotool "
    ++ (subcommand
        ++ text " failed: no X display (DISPLAY is unset — Wayland sessions need ydotool instead).")
describe_failure_in (some display) subcommand stderr = failure_of xdotool stderr

unfoldable pub describe_failure : (display : Option Text) (subcommand stderr : Text) → Text
describe_failure display subcommand stderr = describe_failure_in (present display) subcommand stderr

-- `none` if the promise is fulfilled, else the message of the error.
unfoldable pub linux_runner :
    (trim : Text → Text) (display : Option Text) (args : List Text) → Exit → Option Text
linux_runner trim display args exit =
    if exit.failed
    then some (describe_failure display (subcommand_of args) (trimmed trim exit.stderr))
    else none

abbrev pub lower : ℕ → ℕ
lower c = if leb b'A' c && leb c b'Z' then c + 32 else c

-- `t` starts with the lower-case text `word`, but for the case of ASCII letters.
abbrev pub starts_with : (word t : Text) → Bool
starts_with [] t = true
starts_with (c ∷ word) [] = false
starts_with (c ∷ word) (d ∷ t) = eqb c (lower d) && starts_with word t

-- `/word/i.test(t)`
abbrev pub mentions : (word t : Text) → Bool
mentions word [] = starts_with word []
mentions word (d ∷ t) = starts_with word (d ∷ t) || mentions word t

-- `/trusted|accessibility|permission/i.test(stderr)`
unfoldable pub is_denied : (stderr : Text) → Bool
unfolding text
is_denied stderr =
    mentions (text "trusted") stderr
    || (mentions (text "accessibility") stderr || mentions (text "permission") stderr)

abbrev pub denied_reason : Text
unfolding text
denied_reason =
    text
      "cliclick was denied: grant Accessibility permission to Lantern Remote (System Settings → Privacy & Security → Accessibility), then try again."

-- `describeFailure` of the macOS adapter.
unfoldable pub mac_describe_failure : (stderr : Text) → Text
mac_describe_failure stderr = if is_denied stderr then denied_reason else failure_of cliclick stderr

unfoldable pub mac_runner : (trim : Text → Text) → Exit → Option Text
mac_runner trim exit =
    if exit.failed then some (mac_describe_failure (trimmed trim exit.stderr)) else none

-- `execFileSync('which', ...)` throws, or it does not.
abbrev pub binary_present : (throws : Bool) → Bool
binary_present true = false
binary_present false = true

-- A command that failed always has a message, so that its caller learns of it.
linux_runner-eq_none :
    (trim : Text → Text) (display : Option Text) (args : List Text) (exit : Exit)
    → (linux_runner trim display args exit ≡ none) ↔ (exit.failed ≡ false)
unfolding linux_runner
linux_runner-eq_none trim display args exit = ground arith

mac_runner-eq_none :
    (trim : Text → Text) (exit : Exit) → (mac_runner trim exit ≡ none) ↔ (exit.failed ≡ false)
unfolding mac_runner
mac_runner-eq_none trim exit = ground arith
