-- ===== src/Host/Input/Mac.antt =====
-- electron/services/input/MacOSInputAdapter.ts: the arguments given to cliclick. How the commands
-- run one after another is in Queue, how they end in Runner.
use lantern_remote.Common.{
  Bool, true, not, [], ◌∷◌, ◌++◌, Option, none, some, Text, text, present, if◌then◌else◌,
}
use lantern_remote.Dict.{get}
use lantern_remote.Value.{Number}
use lantern_remote.Shared.RemoteInput.{
  MouseButton, left, middle, right, ButtonEvent, down, up, click, double_click,
}
use lantern_remote.Host.Input.Adapter.{RemoteInputAdapter, Reply, runs, idle, rejected}
use lantern_remote.Host.Input.MacKeymap.{modifiers, pressable_keys}

abbrev pub mac_missing_reason : Text
unfolding text
mac_missing_reason =
    text "cliclick is not installed (brew install cliclick). Remote input stays unavailable."

-- `enqueue`: `has_binary` is whether `which cliclick` has found it.
abbrev pub mac_enqueue : Bool → Text → Reply
mac_enqueue has_binary arg = if not has_binary then rejected mac_missing_reason else runs (arg ∷ [])

abbrev pub no_key_reason : (code : Text) → Text
unfolding text
no_key_reason code = text "cliclick has no key mapping for " ++ (code ++ text ".")

abbrev pub no_middle_reason : Text
unfolding text
no_middle_reason = text "cliclick has no middle-button command."

abbrev pub no_right_reason : Text
unfolding text
no_right_reason = text "cliclick has no right-button press/release (right-click only)."

abbrev pub no_wheel_reason : Text
unfolding text
no_wheel_reason = text "cliclick has no scroll-wheel command."

module _ (show_round : Number → Text) (has_binary : Bool) where
  abbrev pub point : (x y : Number) → Text
  unfolding text
  point x y = show_round x ++ (text "," ++ show_round y)

  abbrev pub mac_button : MouseButton → ButtonEvent → (x y : Number) → Reply
  unfolding text
  mac_button middle event x y = rejected no_middle_reason
  mac_button right down x y = rejected no_right_reason
  mac_button right up x y = rejected no_right_reason
  mac_button right event x y = mac_enqueue has_binary (text "rc:" ++ point x y)
  mac_button left down x y = mac_enqueue has_binary (text "dd:" ++ point x y)
  mac_button left up x y = mac_enqueue has_binary (text "du:" ++ point x y)
  mac_button left double_click x y = mac_enqueue has_binary (text "dc:" ++ point x y)
  mac_button left click x y = mac_enqueue has_binary (text "c:" ++ point x y)

  -- `keyDown` and `keyUp`, with what the two tables have for the code.
  abbrev pub mac_key_down : (code : Text) → (modifier key : Option Text) → Reply
  unfolding text
  mac_key_down code (some modifier) key = mac_enqueue has_binary (text "kd:" ++ modifier)
  mac_key_down code none (some key) = mac_enqueue has_binary (text "kp:" ++ key)
  mac_key_down code none none = rejected (no_key_reason code)

  abbrev pub mac_key_up : (code : Text) → (modifier key : Option Text) → Reply
  unfolding text
  mac_key_up code (some modifier) key = mac_enqueue has_binary (text "ku:" ++ modifier)
  mac_key_up code none (some key) = idle
  mac_key_up code none none = rejected (no_key_reason code)

  unfoldable pub mac_adapter : RemoteInputAdapter
  unfolding text
  mac_adapter = record {
    supported = has_binary;
    move_mouse = λ x y. mac_enqueue has_binary (text "m:" ++ point x y);
    mouse_button = mac_button;
    mouse_wheel = λ dx dy x y. rejected no_wheel_reason;
    key_down = λ code.
        mac_key_down code (present (get code modifiers)) (present (get code pressable_keys));
    key_up =
        λ code. mac_key_up code (present (get code modifiers)) (present (get code pressable_keys));
  }

-- What a code's key down and key up do together.
pub data KeyPair : (key_down key_up : Reply) → Type 0 where
  held :
      (modifier : Text)
      → KeyPair (runs ((text "kd:" ++ modifier) ∷ [])) (runs ((text "ku:" ++ modifier) ∷ []))
  pressed : (key : Text) → KeyPair (runs ((text "kp:" ++ key) ∷ [])) idle
  unmapped : (reason : Text) → KeyPair (rejected reason) (rejected reason)

pairs :
    (show_round : Number → Text) (code : Text) (modifier key : Option Text)
    → KeyPair
        (mac_key_down show_round true code modifier key)
        (mac_key_up show_round true code modifier key)
unfolding mac_key_down mac_key_up
pairs show_round code (some modifier) key = held modifier
pairs show_round code none (some key) = pressed key
pairs show_round code none none = unmapped (no_key_reason code)

-- With cliclick installed, every key code, whitelisted or not, holds and releases one modifier, is
-- pressed at once with nothing left to release, or is rejected for one reason both ways.
pub mac_keys_pair :
    (show_round : Number → Text) (code : Text)
    → KeyPair
        ((mac_adapter show_round true).key_down code)
        ((mac_adapter show_round true).key_up code)
unfolding mac_adapter
mac_keys_pair show_round code =
    pairs show_round code (present (get code modifiers)) (present (get code pressable_keys))
