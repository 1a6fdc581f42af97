-- ===== src/Host/Input/Linux.antt =====
-- electron/services/input/LinuxInputAdapter.ts: the arguments given to xdotool. How the commands
-- run one after another is in Queue, how they end in Runner.
use lantern_remote.Common.{
  ℕ, Bool, not, List, [], ◌∷◌, ◌++◌, Option, none, some, Text, text, ltb, present, if◌then◌else◌,
  ◌&&◌,
}
use lantern_remote.Dict.{get}
use lantern_remote.Value.{Number, lt_zero, le_whole, abs}
use lantern_remote.Shared.RemoteInput.Keys.{decimal}
use lantern_remote.Shared.RemoteInput.{
  MouseButton, left, middle, right, ButtonEvent, down, up, click, double_click,
}
use lantern_remote.Host.Input.Adapter.{RemoteInputAdapter, Reply, runs, idle, rejected}
use lantern_remote.Host.Input.LinuxKeymap.{keymap}

abbrev pub max_wheel_notches : ℕ
max_wheel_notches = 20

abbrev pub button_number : MouseButton → ℕ
button_number left = 1
button_number middle = 2
button_number right = 3

abbrev pub missing_reason : Text
unfolding text
missing_reason =
    text "xdotool is not installed (sudo apt install xdotool). Remote input stays unavailable."

-- `enqueue`: `has_binary` is whether `which xdotool` has found it.
abbrev pub enqueue : Bool → List Text → Reply
enqueue has_binary args = if not has_binary then rejected missing_reason else runs args

-- `0 < n`
abbrev pub is_positive : Number → Bool
is_positive n = not (lt_zero n) && not (le_whole n 0)

module _ (show_round : Number → Text) (rounded_hundredths : Number → ℕ) (has_binary : Bool) where
  -- `Math.min(MAX_WHEEL_NOTCHES, Math.max(1, Math.round(Math.abs(delta) / WHEEL_NOTCH_PX)))`
  unfoldable pub wheel_notches : Number → ℕ
  wheel_notches delta =
      let notches = rounded_hundredths (abs delta) in
      let least = if ltb notches 1 then 1 else notches in
      if ltb max_wheel_notches least then max_wheel_notches else least

  abbrev pub presses : (back forth : ℕ) → Number → List (ℕ × ℕ)
  presses back forth delta =
      if lt_zero delta
      then (back, wheel_notches delta) ∷ []
      else (if is_positive delta then (forth, wheel_notches delta) ∷ [] else [])

  abbrev pub repeat_args : List (ℕ × ℕ) → List Text
  unfolding text
  repeat_args [] = []
  repeat_args ((button, count) ∷ rest) =
      text "--repeat" ∷ (decimal count ∷ (decimal button ∷ repeat_args rest))

  abbrev pub wheel_reply : List (ℕ × ℕ) → Reply
  unfolding text
  wheel_reply [] = idle
  wheel_reply (p ∷ ps) = enqueue has_binary (text "click" ∷ repeat_args (p ∷ ps))

  abbrev pub click_args : ℕ → MouseButton → Number → Number → List Text
  unfolding text
  click_args repeats button x y =
      text "mousemove"
      ∷ (show_round x
          ∷ (show_round y
              ∷ (text "click"
                  ∷ (text "--repeat"
                      ∷ (decimal repeats
                          ∷ (text "--delay"
                              ∷ (text "40" ∷ (decimal (button_number button) ∷ []))))))))

  abbrev pub linux_button : MouseButton → ButtonEvent → Number → Number → List Text
  unfolding text
  linux_button button down x y = text "mousedown" ∷ (decimal (button_number button) ∷ [])
  linux_button button up x y = text "mouseup" ∷ (decimal (button_number button) ∷ [])
  linux_button button click x y = click_args 1 button x y
  linux_button button double_click x y = click_args 2 button x y

  abbrev pub key_reply : Text → Text → Option Text → Reply
  unfolding text
  key_reply subcommand code none =
      rejected (text "xdotool has no mapping for key " ++ (code ++ text "."))
  key_reply subcommand code (some keysym) = enqueue has_binary (subcommand ∷ (keysym ∷ []))

  unfoldable pub linux_adapter : RemoteInputAdapter
  unfolding text
  linux_adapter = record {
    supported = has_binary;
    move_mouse =
        λ x y. enqueue has_binary (text "mousemove" ∷ (show_round x ∷ (show_round y ∷ [])));
    mouse_button = λ button event x y. enqueue has_binary (linux_button button event x y);
    mouse_wheel = λ dx dy x y. wheel_reply (presses 4 5 dy ++ presses 6 7 dx);
    key_down = λ code. key_reply (text "keydown") code (present (get code keymap));
    key_up = λ code. key_reply (text "keyup") code (present (get code keymap));
  }
