-- ===== src/Client/Tests/ClipboardSync.antt =====
-- The theorem of clipboard synchronisation at a session that is not connected.
use lantern_remote.Common.{◌≡◌, refl, true, false, List, [], ◌∷◌, Option, none, Text, text}
use lantern_remote.Value.{Value}
use lantern_remote.Client.ClipboardSync.{
  SyncEvent, mount, set_enabled, poll, frame, step, run, rendered, effect, is_on, sync_is_opt_in,
}

abbrev parse : Text → Option Value
parse s = none

abbrev events : List SyncEvent
events = set_enabled true ∷ mount ∷ []

never_connected : is_on (run parse events).enabled (run parse events).status ≡ false
unfolding run step rendered effect
never_connected = refl

abbrev word : Text
unfolding text
word = text "word"

sync_is_opt_in_example :
    (step parse poll (run parse events) ≡ (run parse events, []))
    × (step parse (frame word) (run parse events) ≡ (run parse events, []))
sync_is_opt_in_example = sync_is_opt_in parse events word never_connected
