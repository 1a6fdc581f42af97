-- ===== src/Host/Clipboard.antt =====
-- electron/services/ClipboardService.ts: the clipboard of the main process.
use lantern_remote.Common.{
  ℕ, ◌+◌, ◌≤◌, ◌<◌, ◌≡◌, ◌⊎◌, inl, inr, Bool, false, Bool-cases, [], Option, none, some, Text, ltb,
  eqb, length, take, length-take, take-eq_self, if◌then◌else◌, arith, Bool-cases,
}
use lantern_remote.Value.{Value, string}
use lantern_remote.Shared.Clipboard.{max_clipboard_text_chars, parse_clipboard_message}

-- `readText`: `clipboard` is what Electron reads, or none if it throws.
unfoldable pub read_text : (clipboard : Option Text) → Text
read_text none = []
read_text (some text) = take (max_clipboard_text_chars + 1) text

-- What `writeText` gives to Electron's clipboard, if anything.
unfoldable pub accepted_text : Value → Option Text
accepted_text (string text) =
    if eqb (length text) 0
    then none
    else (if ltb max_clipboard_text_chars (length text) then none else some text)
accepted_text _ = none

-- `writeText`: `works` is whether Electron's call does not throw.
abbrev pub write_text : (works : Bool) → Value → Bool
write_text works value = elim (accepted_text value) [ none ↦ false | some text ↦ works ]

truncated :
    (n : ℕ) (text : Text)
    → ((length text ≤ n) × (take (n + 1) text ≡ text))
      ⊎ ((n < length text) × (n < length (take (n + 1) text)))
truncated n text = elim (Bool-cases (ltb n (length text))) [
  | inl long ↦
      let lt : n < length text = ground arith in
      inr (lt, omega (arith, length-take (n + 1) text, lt))
  | inr short ↦ inl (ground arith, take-eq_self (n + 1) text (ground arith))
]

-- The renderer gets the whole text if it is no longer than the limit, and else a text that is too
-- long as well.
pub read_text-oversize :
    (text : Text)
    → ((length text ≤ max_clipboard_text_chars) × (read_text (some text) ≡ text))
      ⊎ ((max_clipboard_text_chars < length text)
          × (max_clipboard_text_chars < length (read_text (some text))))
unfolding read_text
read_text-oversize text = truncated max_clipboard_text_chars text

-- Every text that the validator of clipboard frames lets through is given to the clipboard unchanged,
-- and is 1 to 262144 code units long.
pub frames_are_written :
    (frame : Value) (t : Text)
    → parse_clipboard_message frame ≡ some t
    → (accepted_text (string t) ≡ some t) × (0 < length t) × (length t ≤ max_clipboard_text_chars)
unfolding accepted_text parse_clipboard_message
frames_are_written frame t h = ground arith
