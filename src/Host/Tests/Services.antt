-- ===== src/Host/Tests/Services.antt =====
-- The theorems of the services and of the macOS adapter at concrete inputs.
use lantern_remote.Common.{
  Text-discrete, ◌<◌, ◌≤◌, ◌≡◌, ◌⊎◌, refl, true, false, List, [], ◌∷◌, Option, none, some, Text,
  text, every, length,
}
use lantern_remote.Value.{Number, Value, object, field, string, read}
use lantern_remote.Shared.DeviceId.{format_device_id}
use lantern_remote.Shared.Clipboard.{
  clipboard_message, max_clipboard_text_chars, parse_clipboard_message,
}
use lantern_remote.Host.Identity.{
  IdentityEvent, get_device_id, file_read, file_renamed, read_stored, run, answered, body,
}
use lantern_remote.Host.Identity.Answers.{is_rejected, is_id}
use lantern_remote.Host.Identity.Stable.{KeepsBody, one_device_id}
use lantern_remote.Host.Logger.{written, warn, info, outputs, is_console, only_console_is_written}
use lantern_remote.Host.Logger.Rotation.{Files}
use lantern_remote.Host.Clipboard.{read_text, read_text-oversize}

-- The file holds the id as it is.
abbrev print : Value → Text
print (object (field key (string s) rest)) = s
print v = []

abbrev parse : Text → Option Value
parse s = some (body s)

keeps_body : KeepsBody parse print
keeps_body = record { round = λ digits. refl }

-- Two callers and one attempt, the last event first.
abbrev asked : List IdentityEvent
asked =
    file_renamed
    ∷ file_read true (1 ∷ 2 ∷ 3 ∷ 4 ∷ 5 ∷ 6 ∷ 7 ∷ 8 ∷ 9 ∷ [])
    ∷ get_device_id 2
    ∷ get_device_id 1
    ∷ []

one_device_id_example :
    let given = answered parse print none asked in
    (every is_rejected given ≡ true)
    ⊎ ((digits : Text) × (read_stored parse (run parse print none asked).file ≡ some digits)
        × (every (is_id (format_device_id digits)) given ≡ true))
one_device_id_example = one_device_id parse print keeps_body none asked refl

abbrev word : Text
unfolding text
word = text "word"

only_console_is_written_example :
    every is_console (outputs info (written false warn ∷ written true info ∷ [])) ≡ true
only_console_is_written_example =
    only_console_is_written info (written false warn ∷ written true info ∷ [])

abbrev one_log : Files
one_log k = some word

abbrev nothing_shown : Number → Text
nothing_shown n = []

abbrev shift : Text
unfolding text
shift = text "ShiftLeft"

read_text-oversize_example :
    ((length word ≤ max_clipboard_text_chars) × (read_text (some word) ≡ word))
    ⊎ ((max_clipboard_text_chars < length word)
        × (max_clipboard_text_chars < length (read_text (some word))))
read_text-oversize_example = read_text-oversize word

word_parses : parse_clipboard_message (clipboard_message word) ≡ some word
unfolding parse_clipboard_message read word text Text-discrete
word_parses = refl
