-- ===== src/Client/Tests/Window.antt =====
-- The window's theorems at concrete events.
use lantern_remote.Common.{
  ◌≡◌, ◌<◌, ◌+◌, refl, true, [], ◌∷◌, List, Option, none, some, Text, text, Text-discrete, ℕ, false,
}
use lantern_remote.Value.{Value}
use lantern_remote.Client.Store.{ConnectionStatus, client}
use lantern_remote.Client.ConnectionCode
use lantern_remote.Client.ConnectionCode.{
  effects, CodeEvent, ticks, answers, remaining_ms, shown_is_live,
}
use lantern_remote.Client.Viewer.{input_active, rendered, counted}
use lantern_remote.Client.Viewer.Effects
use lantern_remote.Client.Viewer.Effects.{ViewerEvent, set_stream, set_status, set_role, frame}
use lantern_remote.Client.Viewer.Captures.{attaches, detaches, bit, captures_are_balanced}
use lantern_remote.Client.Viewer.Toolbar.{clipboard_active, clipboard_mark_is_true}
use lantern_remote.Client.ClipboardSync
use lantern_remote.Client.ClipboardSync.{SyncEvent, set_enabled, mount}
use lantern_remote.Client.Clipboard.{start_begin}
use lantern_remote.Shared.ConnectionToken.{ConnectionTokenInfo}

abbrev screen : Text
unfolding text
screen = text "screen"

abbrev info : ConnectionTokenInfo
unfolding text
info = record { code = text "AB23CD"; expires_at = 9000 }

-- The code comes, the timer runs once, and the effects run after each.
abbrev counted_down : List CodeEvent
counted_down = effects ∷ (ticks 4000 ∷ (effects ∷ (answers info 3000 ∷ [])))

-- Names what the hook computes with.
go_code : Unit {0}
unfolding remaining_ms ConnectionCode.run ConnectionCode.step ConnectionCode.effects_of info text
go_code = tt

effects_done : (ConnectionCode.run 1000 counted_down).pending ≡ false
unfolding go_code
effects_done = refl

counting : remaining_ms (ConnectionCode.run 1000 counted_down) ≡ some 5000
unfolding go_code
counting = refl

shown_is_live_example : (0 < 5000) × ((ConnectionCode.run 1000 counted_down).ticking ≡ true)
shown_is_live_example = shown_is_live 1000 counted_down 5000 effects_done counting

-- At its end the code is shown with no time left, and the effects take it away.
zero_is_shown :
    (remaining_ms (ConnectionCode.run 1000 (ticks 9000 ∷ counted_down)) ≡ some 0)
    × (remaining_ms (ConnectionCode.run 1000 (effects ∷ (ticks 9000 ∷ counted_down))) ≡ none)
unfolding go_code
zero_is_shown = (refl, refl)

-- The client is connected, and its stream comes.
abbrev viewed : List (ℕ × ViewerEvent)
viewed =
    (3000, set_stream (some screen))
    ∷ ((2000, set_status ConnectionStatus.connected) ∷ ((1000, set_role (some client)) ∷ []))

captures_are_balanced_example :
    attaches (Effects.run 0 none viewed).1
    ≡ detaches (Effects.run 0 none viewed).1 + bit (input_active (Effects.run 0 none viewed).0)
captures_are_balanced_example = captures_are_balanced 0 none viewed

one_handle : (Effects.run 0 none viewed).0.handles ≡ 1
unfolding Effects.run Effects.step Effects.mounted rendered counted Text-discrete text
one_handle = refl

abbrev parse_json : Text → Option Value
parse_json s = none

abbrev synced : List SyncEvent
synced = ClipboardSync.set_status ConnectionStatus.connected ∷ (set_enabled true ∷ (mount ∷ []))

mounted : (ClipboardSync.run parse_json synced).mounted ≡ true
unfolding ClipboardSync.run ClipboardSync.step ClipboardSync.rendered ClipboardSync.effect
    start_begin
mounted = refl

clipboard_mark_is_true_example :
    clipboard_active
      (ClipboardSync.run parse_json synced).enabled
      (ClipboardSync.run parse_json synced).status
    ≡ (ClipboardSync.run parse_json synced).service.running
clipboard_mark_is_true_example = clipboard_mark_is_true parse_json synced mounted
