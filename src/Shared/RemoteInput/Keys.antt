-- ===== src/Shared/RemoteInput/Keys.antt =====
-- shared/remoteInput.ts: the whitelist of key codes.
use Prim.Native.Nat.{◌/◌, ◌%◌}
use lantern_remote.Common.{
  ℕ, zero, suc, ◌+◌, ◌≡◌, Bool, true, false, ◌||◌, List, [], ◌∷◌, ◌++◌, map, String, Text, text,
  ltb, ◌==◌, every, arith, if◌then◌else◌,
}

-- `f` at i, i + 1, …, for a loop with `count` rounds left.
abbrev pub for_each {ℓ} : {A : Type ℓ} → (ℕ → List A) → (count i : ℕ) → List A
for_each f zero i = []
for_each f (suc count) i = f i ++ for_each f count (i + 1)

-- `${i}` for i < 100
abbrev pub decimal : ℕ → Text
decimal i = if ltb i 10 then (b'0' + i) ∷ [] else (b'0' + i / 10) ∷ (b'0' + i % 10) ∷ []

abbrev letter_code : ℕ → List Text
unfolding text
letter_code i = (text "Key" ++ (65 + i) ∷ []) ∷ []

abbrev digit_codes : ℕ → List Text
unfolding text
digit_codes i = (text "Digit" ++ decimal i) ∷ (text "Numpad" ++ decimal i) ∷ []

abbrev function_code : ℕ → List Text
unfolding text
function_code i = (text "F" ++ decimal i) ∷ []

abbrev named_codes : List String
named_codes =
    "AltLeft" ∷ "AltRight" ∷ "ArrowDown" ∷ "ArrowLeft" ∷ "ArrowRight" ∷ "ArrowUp"
    ∷ "AudioVolumeDown" ∷ "AudioVolumeMute" ∷ "AudioVolumeUp" ∷ "Backquote" ∷ "Backslash"
    ∷ "Backspace" ∷ "BracketLeft" ∷ "BracketRight" ∷ "CapsLock" ∷ "Comma" ∷ "ContextMenu"
    ∷ "ControlLeft" ∷ "ControlRight" ∷ "Delete" ∷ "End" ∷ "Enter" ∷ "Equal" ∷ "Escape" ∷ "Home"
    ∷ "Insert" ∷ "IntlBackslash" ∷ "MediaPlayPause" ∷ "MediaStop" ∷ "MediaTrackNext"
    ∷ "MediaTrackPrevious" ∷ "MetaLeft" ∷ "MetaRight" ∷ "Minus" ∷ "NumLock" ∷ "NumpadAdd"
    ∷ "NumpadDecimal" ∷ "NumpadDivide" ∷ "NumpadEnter" ∷ "NumpadMultiply" ∷ "NumpadSubtract"
    ∷ "PageDown" ∷ "PageUp" ∷ "Pause" ∷ "Period" ∷ "PrintScreen" ∷ "Quote" ∷ "ScrollLock"
    ∷ "Semicolon" ∷ "ShiftLeft" ∷ "ShiftRight" ∷ "Slash" ∷ "Space" ∷ "Tab" ∷ []

unfoldable pub keyboard_code_whitelist : List Text
unfolding text
keyboard_code_whitelist =
    for_each letter_code 26 0
    ++ (for_each digit_codes 10 0 ++ (for_each function_code 24 1 ++ map text named_codes))

-- `set.has(code)`
abbrev pub has : Text → List Text → Bool
has code [] = false
has code (c ∷ cs) = (c == code) || has code cs

-- What holds of every member holds of what `has` accepts.
pub every-has :
    (p : Text → Bool) (code : Text) (cs : List Text)
    → every p cs ≡ true
    → has code cs ≡ true
    → p code ≡ true
every-has p code [] e h = absurd (ground arith)
every-has p code (c ∷ cs) e h = ground (arith, every-has p code cs)
