-- ===== src/Client/Viewer/Effects.antt =====
-- src/components/RemoteDesktopViewer.tsx: what happens to the viewer.
use lantern_remote.Common.{
  ℕ, suc, ◌-◌, Bool, true, false, not, List, [], ◌∷◌, ◌++◌, Option, none, some, Text, leb, eqb,
  if◌then◌else◌,
}
use lantern_remote.Client.Store.{ConnectionStatus, SessionRole}
use lantern_remote.Client.Viewer.{
  Viewer, ViewerCommand, ScaleMode, fit, FrameCounter, schedule, rendered, has_stream,
}

pub data ViewerEvent : Type 0 where
  set_stream : Option Text → ViewerEvent
  set_role : Option SessionRole → ViewerEvent
  set_status : ConnectionStatus → ViewerEvent
  -- `reset` of the store
  session_reset : ViewerEvent
  -- The callback of a frame.
  frame : (handle : ℕ) → ViewerEvent
  loaded_metadata : (width height : ℕ) → ViewerEvent
  focus blur : ViewerEvent
  scale : ScaleMode → ViewerEvent
  -- The button of the toolbar.
  toggle_fullscreen : ViewerEvent
  -- The document enters or leaves fullscreen, or refuses to.
  entered_fullscreen left_fullscreen refused_fullscreen : ViewerEvent

-- `tick`: a second is over, or not.
abbrev pub ticked : (now : ℕ) → FrameCounter → Viewer → Viewer
ticked now c v =
    if leb 1000 (now - c.window_start)
    then record v {
      fps = suc c.frames;
      counter = some (record { frames = 0; window_start = now; handle = v.handles });
      handles = suc v.handles;
    }
    else record v {
      counter =
          some
            (record { frames = suc c.frames; window_start = c.window_start; handle = v.handles });
      handles = suc v.handles;
    }

-- The callback of a cancelled effect does nothing.
unfoldable pub on_frame : (now handle : ℕ) → Viewer → Viewer × List ViewerCommand
on_frame now handle v = elim v.counter [
  | none ↦ (v, [])
  | some c ↦ if eqb c.handle handle then (ticked now c v, schedule v.handles ∷ []) else (v, [])
]

-- `onChange`, if it is listened to
abbrev pub on_fullscreen_change : (full : Bool) → Viewer → Viewer
on_fullscreen_change full v =
    if v.listening
    then record v { is_full = full; wants_full = full }
    else record v { is_full = full }

unfoldable pub step : (now : ℕ) → ViewerEvent → Viewer → Viewer × List ViewerCommand
step now (set_stream s) v = rendered now v (record v { stream = s })
step now (set_role r) v = rendered now v (record v { role = r })
step now (set_status s) v = rendered now v (record v { status = s })
step now session_reset v =
    rendered now v
      (record v { stream = none; role = none; status = ConnectionStatus.idle; wants_full = false })
step now (frame handle) v = on_frame now handle v
step now (loaded_metadata width height) v =
    (if has_stream v.stream then record v { video_width = width; video_height = height } else v, [])
step now focus v = (record v { keyboard_focused = true }, [])
step now blur v = (record v { keyboard_focused = false }, [])
step now (scale mode) v = (record v { scale_mode = mode }, [])
step now toggle_fullscreen v =
    if has_stream v.stream
    then rendered now v (record v { wants_full = not v.wants_full })
    else (v, [])
step now entered_fullscreen v = rendered now v (on_fullscreen_change true v)
step now left_fullscreen v = rendered now v (on_fullscreen_change false v)
step now refused_fullscreen v = rendered now v (record v { wants_full = false })

-- The viewer before its first rendering.
abbrev pub blank : Viewer
blank = record {
  stream = none;
  role = none;
  status = ConnectionStatus.idle;
  scale_mode = fit;
  fps = 0;
  counter = none;
  handles = 0;
  video_width = 0;
  video_height = 0;
  keyboard_focused = false;
  wants_full = false;
  is_full = false;
  listening = false;
}

-- The first rendering, with the stream that the store has then. The effect that listens to
-- `fullscreenchange` runs only now, since its value never changes.
unfoldable pub mounted : (now : ℕ) (stream : Option Text) → Viewer × List ViewerCommand
mounted now stream =
    rendered now blank (record blank { stream = stream; listening = has_stream stream })

-- The last event first, each with its time: the viewer, and all commands, the last ones last.
unfoldable pub run :
    (now : ℕ) (stream : Option Text) → List (ℕ × ViewerEvent) → Viewer × List ViewerCommand
run now stream [] = mounted now stream
run now stream ((at, e) ∷ past) =
    let (v, commands) = run now stream past in
    let (v', more) = step at e v in (v', commands ++ more)
