-- ===== src/Client/Tests.antt =====
-- The renderer's theorems at concrete states.
mod Capture
mod Settings
mod ClipboardSync
mod ScreenShare
mod History
mod WebRtc
mod Signaling
mod Session
mod Window
mod Link
use lantern_remote.Common.{
  ◌≡◌, ◌≢◌, refl, true, false, [], ◌∷◌, Option, none, some, arith, Text, Text-discrete,
}
use lantern_remote.Value.{Value, string, object, field, end}
use lantern_remote.Shared.Clipboard.{clipboard_message}
use lantern_remote.Client.Clipboard.{
  RendererClipboardService, stop, poll_begin, poll_end, handle_remote_message,
}
use lantern_remote.Client.Clipboard.Echo.{
  IsSendable, poll_end_sends, copied_once, stopped_is_deaf, poll_end-stop,
}

-- A text codec for clipboard frames, in place of JSON.
abbrev stringify : Value → Text
stringify (object (field k v (field l (string t) end))) = t
stringify _ = []

abbrev parse_json : Text → Option Value
parse_json s = some (clipboard_message s)

abbrev hello : Text
hello = 104 ∷ 105 ∷ []

abbrev old : Text
old = 111 ∷ []

abbrev polling : RendererClipboardService
polling = record { running = true; baseline = some old }

sends : (poll_end (some hello) polling).1 ≡ some hello
unfolding poll_end Text-discrete
sends = refl
