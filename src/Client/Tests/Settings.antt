-- ===== src/Client/Tests/Settings.antt =====
-- The theorem of the settings at a concrete run.
use lantern_remote.Common.{◌≡◌, true, List, [], ◌∷◌, Text, text}
use lantern_remote.Client.Settings.{
  SettingsEvent, set_clipboard_sync, set_signaling_url, load_settings, run, settings_are_kept,
}

abbrev url : Text
unfolding text
url = text "http://lantern.example"

abbrev events : List SettingsEvent
events = set_clipboard_sync true ∷ set_signaling_url url ∷ []

settings_are_kept_example : load_settings (run [] events).1 ≡ (run [] events).0
settings_are_kept_example = settings_are_kept [] events
