-- ===== src/Host/Input/LinuxKeymap.antt =====
-- electron/services/input/LinuxInputAdapter.ts: the table from key codes to xdotool keysyms.
use lantern_remote.Common.{
  ℕ, ◌+◌, ◌≡◌, refl, Bool, true, false, List, [], ◌∷◌, ◌++◌, map, none, some, String, Text, text,
  every, present, Text-discrete,
}
use lantern_remote.Dict.{Dict, get, put}
use lantern_remote.Shared.RemoteInput.Keys.{
  for_each, decimal, keyboard_code_whitelist, has, every-has,
}

abbrev pub Entries : Type 0
Entries = List (Text × Text)

abbrev letter_entry : ℕ → Entries
unfolding text
letter_entry i = (text "Key" ++ (65 + i) ∷ [], (97 + i) ∷ []) ∷ []

abbrev digit_entries : ℕ → Entries
unfolding text
digit_entries i =
    (text "Digit" ++ decimal i, decimal i)
    ∷ (text "Numpad" ++ decimal i, text "KP_" ++ decimal i)
    ∷ []

abbrev function_entry : ℕ → Entries
unfolding text
function_entry i = (text "F" ++ decimal i, text "F" ++ decimal i) ∷ []

abbrev named : List (String × String)
named =
    ("AltLeft", "Alt_L")
    ∷ ("AltRight", "Alt_R")
    ∷ ("ArrowDown", "Down")
    ∷ ("ArrowLeft", "Left")
    ∷ ("ArrowRight", "Right")
    ∷ ("ArrowUp", "Up")
    ∷ ("AudioVolumeDown", "XF86AudioLowerVolume")
    ∷ ("AudioVolumeMute", "XF86AudioMute")
    ∷ ("AudioVolumeUp", "XF86AudioRaiseVolume")
    ∷ ("Backquote", "grave")
    ∷ ("Backslash", "backslash")
    ∷ ("Backspace", "BackSpace")
    ∷ ("BracketLeft", "bracketleft")
    ∷ ("BracketRight", "bracketright")
    ∷ ("CapsLock", "Caps_Lock")
    ∷ ("Comma", "comma")
    ∷ ("ContextMenu", "Menu")
    ∷ ("ControlLeft", "Control_L")
    ∷ ("ControlRight", "Control_R")
    ∷ ("Delete", "Delete")
    ∷ ("End", "End")
    ∷ ("Enter", "Return")
    ∷ ("Equal", "equal")
    ∷ ("Escape", "Escape")
    ∷ ("Home", "Home")
    ∷ ("Insert", "Insert")
    ∷ ("IntlBackslash", "backslash")
    ∷ ("MediaPlayPause", "XF86AudioPlay")
    ∷ ("MediaStop", "XF86AudioStop")
    ∷ ("MediaTrackNext", "XF86AudioNext")
    ∷ ("MediaTrackPrevious", "XF86AudioPrev")
    ∷ ("MetaLeft", "Super_L")
    ∷ ("MetaRight", "Super_R")
    ∷ ("Minus", "minus")
    ∷ ("NumLock", "Num_Lock")
    ∷ ("NumpadAdd", "KP_Add")
    ∷ ("NumpadDecimal", "KP_Decimal")
    ∷ ("NumpadDivide", "KP_Divide")
    ∷ ("NumpadEnter", "KP_Enter")
    ∷ ("NumpadMultiply", "KP_Multiply")
    ∷ ("NumpadSubtract", "KP_Subtract")
    ∷ ("PageDown", "Page_Down")
    ∷ ("PageUp", "Page_Up")
    ∷ ("Pause", "Pause")
    ∷ ("Period", "period")
    ∷ ("PrintScreen", "Print")
    ∷ ("Quote", "apostrophe")
    ∷ ("ScrollLock", "Scroll_Lock")
    ∷ ("Semicolon", "semicolon")
    ∷ ("ShiftLeft", "Shift_L")
    ∷ ("ShiftRight", "Shift_R")
    ∷ ("Slash", "slash")
    ∷ ("Space", "space")
    ∷ ("Tab", "Tab")
    ∷ []

abbrev pub texts : String × String → Text × Text
texts (a, b) = (text a, text b)

-- `map.set` for each entry, in order.
abbrev pub set_all : Entries → Dict Text → Dict Text
set_all [] m = m
set_all ((k, v) ∷ es) m = set_all es (put k v m)

unfoldable pub keymap : Dict Text
unfolding text
keymap =
    set_all
      (for_each letter_entry 26 0
        ++ (for_each digit_entries 10 0 ++ (for_each function_entry 24 1 ++ map texts named)))
      []

abbrev pub is_mapped : Dict Text → Text → Bool
is_mapped m code = elim (present (get code m)) [ none ↦ false | some keysym ↦ true ]

whitelist_mapped : every (is_mapped keymap) keyboard_code_whitelist ≡ true
unfolding keymap keyboard_code_whitelist get put Text-discrete
whitelist_mapped = refl

-- Every whitelisted key code has a keysym.
pub keymap_complete :
    (code : Text) → has code keyboard_code_whitelist ≡ true → is_mapped keymap code ≡ true
keymap_complete code = every-has (is_mapped keymap) code keyboard_code_whitelist whitelist_mapped
