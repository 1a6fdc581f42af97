-- ===== src/Client/Tests/Link.antt =====
-- What is typed, and the hook that links to the server, at concrete values.
use lantern_remote.Common.{
  ◌≡◌, ◌≤◌, ◌+◌, refl, true, false, [], ◌∷◌, none, some, Text, text, Text-discrete, length, keep,
  take, leb, eqb, if◌then◌else◌,
}
use lantern_remote.Shared.Signaling
use lantern_remote.Shared.DeviceId.{is_digit, normalize_device_id, parse_device_id}
use lantern_remote.Shared.ConnectionToken.{normalize_token_input, includes}
use lantern_remote.Server.Handlers.{pass, refuse}
use lantern_remote.Client.Signaling.{
  SignalingService, connection_to, request_connection_begin, connect, disconnect,
}
use lantern_remote.Client.ConnectionInput.{format_input}
use lantern_remote.Client.ConnectionInput.Typed.{typed_request}
use lantern_remote.Client.Session.Mount.{
  SessionHook, boot, set_stun, unmount, run, step, rendered, clean_up, effect, booted, is_ready,
  signaling_url_of,
}
use lantern_remote.Client.Session.Mount.Sockets.{opened, closed, no_socket_is_left}
use lantern_remote.Client.Session.Mount.Strands.{Strands, changes_setting, settings_change-Strands}

abbrev to_upper : Text → Text
to_upper t = t

abbrev online : SignalingService
online = record { socket = some true; device_id = none; request_timer = false }

abbrev typed : Text
unfolding text
typed = text "id 111-111-111!"

abbrev code : Text
unfolding text
code = text "AB 23CD"

typed_request_example :
    request_connection_begin (format_input typed) (normalize_token_input to_upper code) online ≡ (
      if leb 9 (length (keep is_digit typed))
      then (if eqb (length (normalize_token_input to_upper code)) 6
          then pass
              (connection_to (take 9 (keep is_digit typed)) (normalize_token_input to_upper code))
          else refuse Signaling.invalid_token)
      else refuse Signaling.invalid_id)
typed_request_example = typed_request to_upper online refl typed code

abbrev alice : Text
unfolding text
alice = text "111111111"

abbrev stun : Text
unfolding text
stun = text "stun:one"

abbrev other_stun : Text
unfolding text
other_stun = text "stun:two"

no_socket_is_left_example :
    (opened (run [] [] stun (boot alice ∷ [])).1 ≤ closed (run [] [] stun (boot alice ∷ [])).1 + 1)
    × (opened (run [] [] stun (unmount ∷ (boot alice ∷ []))).1
        ≡ closed (run [] [] stun (unmount ∷ (boot alice ∷ []))).1)
no_socket_is_left_example = no_socket_is_left [] [] stun (boot alice ∷ [])

abbrev linked : SessionHook
linked = (run [] [] stun (boot alice ∷ [])).0

linked-active : linked.active ≡ true
unfolding run step rendered clean_up effect booted is_ready includes text Text-discrete connect
    parse_device_id normalize_device_id signaling_url_of disconnect
linked-active = refl

changed : changes_setting [] (set_stun other_stun) linked ≡ true
unfolding run step rendered clean_up effect booted is_ready includes text Text-discrete connect
    parse_device_id normalize_device_id signaling_url_of disconnect
changed = refl

settings_change-Strands_example : Strands linked (step [] (set_stun other_stun) linked)
settings_change-Strands_example =
    settings_change-Strands [] [] stun (boot alice ∷ []) (set_stun other_stun) linked-active changed
