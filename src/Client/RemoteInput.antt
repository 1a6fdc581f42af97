-- ===== src/Client/RemoteInput.antt =====
-- src/services/RemoteInputService.ts: the frames that reach the host.
use lantern_remote.Common.{Option, none, some, Text}
use lantern_remote.Value.{Number, Value}
use lantern_remote.Shared.RemoteInput.{
  RemoteInputMessage, RemoteInputRequest, parse_remote_input_message,
}
use lantern_remote.Client.Store.{DisplaySize}

abbrev pub frame_message : Option Value → Option RemoteInputMessage
frame_message none = none
frame_message (some v) = parse_remote_input_message v

abbrev pub request_for :
    (round : Number → Number)
    → Option RemoteInputMessage
    → Option DisplaySize
    → Option RemoteInputRequest
request_for round (some message) (some display) = some (record {
  message = message;
  display_width = round display.width;
  display_height = round display.height;
})
request_for round _ _ = none

-- The request that is sent to the main process; its message is the result. `JSON.parse` and
-- `Math.round` are parameters.
unfoldable pub forward_to_host :
    (parse_json : Text → Option Value) (round : Number → Number)
    → Text
    → Option DisplaySize
    → Option RemoteInputRequest
forward_to_host parse_json round frame display =
    request_for round (frame_message (parse_json frame)) display
