-- ===== src/Host/Input/MacKeymap.antt =====
-- electron/services/input/MacOSInputAdapter.ts: its two tables of keys.
use lantern_remote.Common.{ℕ, List, [], ◌∷◌, ◌++◌, map, String, Text, text}
use lantern_remote.Dict.{Dict}
use lantern_remote.Shared.RemoteInput.Keys.{for_each, decimal}
use lantern_remote.Host.Input.LinuxKeymap.{set_all, Entries, texts}

abbrev modifier_names : List (String × String)
modifier_names =
    ("ShiftLeft", "shift")
    ∷ ("ShiftRight", "shift")
    ∷ ("ControlLeft", "ctrl")
    ∷ ("ControlRight", "ctrl")
    ∷ ("AltLeft", "alt")
    ∷ ("AltRight", "alt")
    ∷ ("MetaLeft", "cmd")
    ∷ ("MetaRight", "cmd")
    ∷ []

unfoldable pub modifiers : Dict Text
unfolding text
modifiers = set_all (map texts modifier_names) []

abbrev function_press : ℕ → Entries
unfolding text
function_press i = (text "F" ++ decimal i, text "f" ++ decimal i) ∷ []

abbrev numpad_press : ℕ → Entries
unfolding text
numpad_press i = (text "Numpad" ++ decimal i, text "num-" ++ decimal i) ∷ []

abbrev press_names : List (String × String)
press_names =
    ("ArrowDown", "arrow-down")
    ∷ ("ArrowLeft", "arrow-left")
    ∷ ("ArrowRight", "arrow-right")
    ∷ ("ArrowUp", "arrow-up")
    ∷ ("AudioVolumeDown", "volume-down")
    ∷ ("AudioVolumeMute", "mute")
    ∷ ("AudioVolumeUp", "volume-up")
    ∷ ("Backspace", "delete")
    ∷ ("Delete", "fwd-delete")
    ∷ ("End", "end")
    ∷ ("Enter", "return")
    ∷ ("Escape", "esc")
    ∷ ("Home", "home")
    ∷ ("MediaPlayPause", "play-pause")
    ∷ ("MediaTrackNext", "play-next")
    ∷ ("MediaTrackPrevious", "play-previous")
    ∷ ("NumpadAdd", "num-plus")
    ∷ ("NumpadDivide", "num-divide")
    ∷ ("NumpadEnter", "num-enter")
    ∷ ("NumpadMultiply", "num-multiply")
    ∷ ("NumpadSubtract", "num-minus")
    ∷ ("PageDown", "page-down")
    ∷ ("PageUp", "page-up")
    ∷ ("Space", "space")
    ∷ ("Tab", "tab")
    ∷ []

unfoldable pub pressable_keys : Dict Text
unfolding text
pressable_keys =
    set_all (for_each function_press 16 1 ++ (for_each numpad_press 10 0 ++ map texts press_names))
      []
