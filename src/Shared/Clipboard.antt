-- ===== src/Shared/Clipboard.antt =====
-- shared/clipboard.ts and shared/controlMessages.ts: the frames of two data channels.
use lantern_remote.Common.{
  ℕ, ◌*◌, not, ◌||◌, Option, none, some, Text, text, ltb, eqb, ◌==◌, length, ◌>>=◌, ◌>>◌, guard,
  if◌then◌else◌,
}
use lantern_remote.Value.{Value, string, object, array, Fields, end, field, read, as_string}
use lantern_remote.Shared.Signaling.{as_record, is_text}

abbrev pub max_clipboard_text_chars : ℕ
max_clipboard_text_chars = 256 * 1024

abbrev pub clipboard_text : Text
unfolding text
clipboard_text = text "clipboard-text"

-- `{ kind: 'clipboard-text', text }`
abbrev pub clipboard_message : Text → Value
clipboard_message t = object (field "kind" (string clipboard_text) (field "text" (string t) end))

-- `typeof v === 'object' && v !== null`: an array passes, and has none of the named properties.
abbrev pub as_object : Value → Option Fields
as_object (object fs) = some fs
as_object (array items) = some end
as_object _ = none

-- The text of a valid frame.
unfoldable pub parse_clipboard_message : Value → Option Text
parse_clipboard_message payload = do
  fs ← as_object payload
  guard (is_text (read "kind" fs) clipboard_text)
  t ← as_string (read "text" fs)
  guard (not (eqb (length t) 0 || ltb max_clipboard_text_chars (length t)))
  some t

pub data ControlMessage : Type 0 where
  video_tracks_added video_tracks_ended : ControlMessage

abbrev pub control_kind : ControlMessage → Text
unfolding text
control_kind video_tracks_added = text "video-tracks-added"
control_kind video_tracks_ended = text "video-tracks-ended"

-- What `JSON.stringify` is given.
abbrev pub control_message : ControlMessage → Value
control_message m = object (field "kind" (string (control_kind m)) end)

abbrev pub known_kind : Text → Option ControlMessage
known_kind kind =
    if kind == control_kind video_tracks_added
    then some video_tracks_added
    else (if kind == control_kind video_tracks_ended then some video_tracks_ended else none)

-- `JSON.parse` of the runtime is the parameter, with `none` where it throws.
unfoldable pub parse_control_message :
    (parse_json : Text → Option Value) → Value → Option ControlMessage
parse_control_message parse_json frame = do
  s ← as_string frame
  parsed ← parse_json s
  fs ← as_record parsed
  kind ← as_string (read "kind" fs)
  known_kind kind
