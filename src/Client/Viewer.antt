-- ===== src/Client/Viewer.antt =====
-- src/components/RemoteDesktopViewer.tsx. After each change React runs the clean-ups of the effects
-- whose values have changed, then these effects. The video, and the reference to the container, are
-- there as long as there is a stream. A callback of a frame is named by its handle.
pub mod Effects
pub mod Captures
pub mod Frames
pub mod Fullscreen
pub mod Toolbar
use lantern_remote.Common.{
  ℕ, suc, ◌+◌, ◌-◌, Bool, true, false, not, ◌&&◌, List, [], ◌∷◌, ◌++◌, Option, none, some, Text,
  leb, eqb, ◌==◌, if◌then◌else◌,
}
use lantern_remote.Client.Store.{ConnectionStatus, connected, idle, SessionRole, client}

pub data ScaleMode : Type 0 where
  fit actual : ScaleMode

-- The variables of the effect that counts frames.
pub record FrameCounter : Type 0 where
  pub frames : ℕ
  pub window_start : ℕ
  pub handle : ℕ

-- `wants_full` is `isFullscreen`, of the store; `is_full` is whether the document's fullscreen element
-- is the container; `listening` is whether `fullscreenchange` is listened to; `handles` is the next
-- handle that the browser gives.
pub record Viewer : Type 0 where
  pub stream : Option Text
  pub role : Option SessionRole
  pub status : ConnectionStatus
  pub scale_mode : ScaleMode
  pub fps : ℕ
  pub counter : Option FrameCounter
  pub handles : ℕ
  pub video_width : ℕ
  pub video_height : ℕ
  pub keyboard_focused : Bool
  pub wants_full : Bool
  pub is_full : Bool
  pub listening : Bool

pub data ViewerCommand : Type 0 where
  set_source : Option Text → ViewerCommand
  play attach_capture detach_capture listen_size unlisten_size : ViewerCommand
  schedule cancel : (handle : ℕ) → ViewerCommand
  request_fullscreen exit_fullscreen : ViewerCommand

abbrev pub has_stream : Option Text → Bool
has_stream none = false
has_stream (some s) = true

abbrev pub is_client : Option SessionRole → Bool
is_client (some client) = true
is_client _ = false

abbrev pub is_connected : ConnectionStatus → Bool
is_connected connected = true
is_connected _ = false

-- `inputActive`
unfoldable pub input_active : Viewer → Bool
input_active v = is_client v.role && (is_connected v.status && has_stream v.stream)

abbrev pub same_stream : Option Text → Option Text → Bool
same_stream none none = true
same_stream (some s) (some t) = s == t
same_stream _ _ = false

abbrev pub same : Bool → Bool → Bool
same true b = b
same false b = not b

abbrev pub when : Bool → List ViewerCommand → List ViewerCommand
when true commands = commands
when false commands = []

abbrev pub cancelled : Option FrameCounter → List ViewerCommand
cancelled none = []
cancelled (some c) = cancel c.handle ∷ []

-- The effects of the stream: its source, its size, and the count of its frames from `now` on.
unfoldable pub counted : (now : ℕ) → Viewer → Viewer
counted now v = elim v.stream [
  | none ↦ record v { fps = 0; counter = none }
  | some s ↦ record v {
    counter = some (record { frames = 0; window_start = now; handle = v.handles });
    handles = suc v.handles;
  }
]

-- A new value of `isFullscreen`.
abbrev pub fullscreen_effect : Viewer → List ViewerCommand
fullscreen_effect v =
    if not (has_stream v.stream)
    then []
    else (if v.wants_full && not v.is_full
        then request_fullscreen ∷ []
        else (if not v.wants_full && v.is_full then exit_fullscreen ∷ [] else []))

-- The commands of the clean-ups and the effects, when `before` was rendered last.
unfoldable pub effects : (before after : Viewer) → List ViewerCommand
effects before after =
    let moved = not (same_stream before.stream after.stream) in
    let switched = not (same (input_active before) (input_active after)) in
    when (moved && has_stream before.stream) (set_source none ∷ [])
    ++ (when (switched && input_active before) (detach_capture ∷ [])
        ++ (when (moved && has_stream before.stream) (unlisten_size ∷ cancelled before.counter)
            ++ (when (moved && has_stream after.stream) (set_source after.stream ∷ (play ∷ []))
                ++ (when (switched && input_active after) (attach_capture ∷ [])
                    ++ (when (moved && has_stream after.stream)
                          (listen_size ∷ (schedule after.handles ∷ []))
                        ++ when (not (same before.wants_full after.wants_full))
                            (fullscreen_effect after))))))

-- The changed state with the effects' own changes.
unfoldable pub rendered : (now : ℕ) (before after : Viewer) → Viewer × List ViewerCommand
rendered now before after = (
  if same_stream before.stream after.stream then after else counted now after,
  effects before after,
)
