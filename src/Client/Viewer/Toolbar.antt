-- ===== src/Client/Viewer/Toolbar.antt =====
-- src/components/ConnectionToolbar.tsx, and what RemoteDesktopViewer.tsx shows with it.
use lantern_remote.Client.ClipboardSync.{SyncEvent}
use lantern_remote.Value.{Value}
use lantern_remote.Value.{Value}
use lantern_remote.Client.ClipboardSync.{ClipboardSync, SyncEvent, run, run-is_synced, is_synced}
use lantern_remote.Common.{
  ℕ, ◌≡◌, Bool, true, false, not, ◌&&◌, Option, none, some, arith, Text, text, List, if◌then◌else◌,
  ltb,
}
use lantern_remote.Client.Store.{ConnectionStatus}
use lantern_remote.Client.Viewer.{Viewer, ScaleMode, fit, actual, is_connected, input_active}
use lantern_remote.Client.Viewer.Effects.{ViewerEvent, scale, toggle_fullscreen}

pub record Toolbar : Type 0 where
  pub fit_pressed : Bool
  pub actual_pressed : Bool
  pub fullscreen_pressed : Bool
  pub fullscreen_label : Text
  pub disabled : Bool
  pub clipboard_active : Bool

abbrev pub is_fit : ScaleMode → Bool
is_fit fit = true
is_fit actual = false

unfoldable pub clipboard_active : (clipboard_sync : Bool) → ConnectionStatus → Bool
clipboard_active clipboard_sync status = clipboard_sync && is_connected status

unfoldable pub toolbar :
    (scale_mode : ScaleMode) (is_fullscreen disabled clipboard_sync : Bool)
    → ConnectionStatus
    → Toolbar
unfolding text
toolbar scale_mode is_fullscreen disabled clipboard_sync status = record {
  fit_pressed = is_fit scale_mode;
  actual_pressed = not (is_fit scale_mode);
  fullscreen_pressed = is_fullscreen;
  fullscreen_label = if is_fullscreen then text "Exit fullscreen" else text "Fullscreen";
  disabled = disabled;
  clipboard_active = clipboard_active clipboard_sync status;
}

pub data ToolButton : Type 0 where
  fit_button actual_button fullscreen_button disconnect_button : ToolButton

-- What a click does: an event of the viewer, or the end of the session.
pub data ToolClick : Type 0 where
  viewer_event : ViewerEvent → ToolClick
  disconnects ignored : ToolClick

unfoldable pub clicked : Toolbar → ToolButton → ToolClick
clicked bar b = if bar.disabled then ignored else elim b [
  | fit_button ↦ viewer_event (scale fit)
  | actual_button ↦ viewer_event (scale actual)
  | fullscreen_button ↦ viewer_event toggle_fullscreen
  | disconnect_button ↦ disconnects
]

pub data ViewerPage : Type 0 where
  placeholder : Toolbar → ViewerPage
  video :
      (aspect : Option (ℕ × ℕ)) (actual_size input_badge keys_badge : Bool) (fps width height : ℕ)
      → Toolbar
      → ViewerPage

-- The viewer has a toolbar of its own without a stream, with the values that the toolbar has when
-- none are given.
unfoldable pub page : (clipboard_sync : Bool) → Viewer → ViewerPage
page clipboard_sync v = elim v.stream [
  | none ↦ placeholder (toolbar fit false true clipboard_sync v.status)
  | some s ↦
      video
        (if ltb 0 v.video_width && ltb 0 v.video_height
          then some (v.video_width, v.video_height)
          else none)
        (not (is_fit v.scale_mode)) (input_active v) (input_active v && v.keyboard_focused) v.fps
        v.video_width v.video_height
        (toolbar v.scale_mode v.wants_full false clipboard_sync v.status)
]

mark_of :
    (parse_json : Text → Option Value) (s : ClipboardSync)
    → s.mounted ≡ true
    → is_synced parse_json s ≡ true
    → clipboard_active s.enabled s.status ≡ s.service.running
unfolding clipboard_active
mark_of parse_json s h k = ground arith

-- The mark of the clipboard is set exactly while the clipboard service polls, in every run of the
-- hook that starts and stops it.
pub clipboard_mark_is_true :
    (parse_json : Text → Option Value) (events : List SyncEvent)
    → (run parse_json events).mounted ≡ true
    → clipboard_active (run parse_json events).enabled (run parse_json events).status
      ≡ (run parse_json events).service.running
unfolding clipboard_active
clipboard_mark_is_true parse_json events h =
    mark_of parse_json (run parse_json events) h (run-is_synced parse_json events)
