-- ===== src/Client/Clipboard.antt =====
-- src/services/ClipboardService.ts. A method that awaits is two steps, before and after: in between
-- other methods may run. What it hands to `send` or `writeLocal` is part of the result.
pub mod Echo
use lantern_remote.Common.{
  ℕ, Bool, true, false, not, ◌||◌, Option, none, some, Text, ltb, eqb, ◌==◌, length, if◌then◌else◌,
}
use lantern_remote.Value.{Value}
use lantern_remote.Shared.Clipboard.{max_clipboard_text_chars, parse_clipboard_message}

-- `running` stands for `timer !== null`.
pub record RendererClipboardService : Type 0 where
  pub running : Bool
  pub baseline : Option Text

-- A start that is not ignored begins to read the clipboard, as the second part says.
unfoldable pub start_begin : RendererClipboardService → RendererClipboardService × Bool
start_begin s = if s.running then (s, false) else (record { running = true; baseline = none }, true)

-- The end of that read; a failed one gives the empty text.
unfoldable pub start_end : Text → RendererClipboardService → RendererClipboardService
start_end t s = if not s.running then s else record s { baseline = some t }

unfoldable pub stop : RendererClipboardService → RendererClipboardService
stop s = record { running = false; baseline = none }

-- Whether a poll goes on to read the clipboard.
abbrev pub poll_begin : RendererClipboardService → Bool
poll_begin s = s.running

-- `text === this.baseline`
abbrev pub is_baseline : Text → Option Text → Bool
is_baseline t none = false
is_baseline t (some b) = t == b

-- The end of a poll's read, `none` if it failed: the new state, and the text that is sent.
unfoldable pub poll_end :
    Option Text → RendererClipboardService → RendererClipboardService × Option Text
poll_end none s = (s, none)
poll_end (some t) s = if is_baseline t s.baseline then (s, none) else (
  record s { baseline = some t },
  if eqb (length t) 0 || ltb max_clipboard_text_chars (length t) then none else some t,
)

abbrev pub apply : Option Text → RendererClipboardService → RendererClipboardService × Option Text
apply none s = (s, none)
apply (some t) s =
    if is_baseline t s.baseline then (s, none) else (record s { baseline = some t }, some t)

abbrev pub parse_frame : Option Value → Option Text
parse_frame none = none
parse_frame (some v) = parse_clipboard_message v

-- One inbound frame: the new state, and the text that is written to the clipboard.
unfoldable pub handle_remote_message :
    (parse_json : Text → Option Value)
    → Text
    → RendererClipboardService
    → RendererClipboardService × Option Text
handle_remote_message parse_json frame s =
    if not s.running then (s, none) else apply (parse_frame (parse_json frame)) s
