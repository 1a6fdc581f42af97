-- ===== src/Client/Tests/ScreenShare.antt =====
-- The theorem of screen sharing at a concrete run.
use lantern_remote.Common.{◌≡◌, refl, true, [], ◌∷◌, none, some, Text, text, List}
use lantern_remote.Client.Store.{connected}
use lantern_remote.Client.ScreenShare.{
  ShareEvent, start, stop, captured, listed, status_changed, session_ends, run, step, start_sharing,
  capture_started,
}
use lantern_remote.Client.ScreenShare.Live.{live, own, has_stream, is_calm, no_capture_is_left}

abbrev screen : Text
unfolding text
screen = text "screen:1"

-- A screen that is chosen, captured and shared, the last event first.
abbrev events : List ShareEvent
events =
    captured screen none none true ∷ start ∷ status_changed connected ∷ listed (screen ∷ []) ∷ []

calm : is_calm events ≡ true
unfolding run step start_sharing capture_started screen
calm = refl

shares : (run events).store.local_stream ≡ some screen
unfolding run step start_sharing capture_started screen
shares = refl

no_capture_is_left_example :
    (live events ≡ own (run events).store.local_stream)
    × (has_stream (run events).store.local_stream ≡ (run events).store.sharing)
    × (live (stop ∷ events) ≡ [])
    × (live (session_ends ∷ events) ≡ [])
no_capture_is_left_example = no_capture_is_left events calm
