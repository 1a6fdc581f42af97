-- ===== src/Client/ScreenShare.antt =====
-- src/hooks/useScreenShare.ts and src/services/ScreenCaptureService.ts: the choice of a screen, and
-- sharing it. `startSharing` is one step before its `await` and one after.
pub mod Live
use lantern_remote.Common.{
  ℕ, suc, ◌+◌, ◌-◌, Bool, true, false, not, ◌&&◌, List, [], ◌∷◌, ◌++◌, map, Option, none, some,
  Text, text, eqb, ◌==◌, if◌then◌else◌,
}
use lantern_remote.Value.{Value}
use lantern_remote.Shared.Clipboard.{ControlMessage, video_tracks_added, video_tracks_ended}
use lantern_remote.Client.Store.{ConnectionState, ConnectionStatus, connected, DisplaySize, initial}
use lantern_remote.Client.Session.{
  Command, stop_stream, remove_local_stream, capture_stopped, stop_capture,
}

abbrev pub denied : Text
unfolding text
denied = text "Screen capture was denied. Allow screen recording for Lantern Remote and try again."

abbrev pub source_unavailable : Text
unfolding text
source_unavailable = text "That display is no longer available. Refresh the list and try again."

abbrev pub not_supported : Text
unfolding text
not_supported = text "Screen capture is not supported in this environment."

abbrev pub capture_error : Text
unfolding text
capture_error = text "Could not start screen capture. Try again."

-- `mapCaptureError`, on the name of a `DOMException`, which is empty for another error.
unfoldable pub map_capture_error : (name : Text) → Text
unfolding text
map_capture_error name =
    if name == text "NotAllowedError"
    then denied
    else (if name == text "NotFoundError"
        then source_unavailable
        else (if name == text "OverconstrainedError"
            then source_unavailable
            else (if name == text "NotSupportedError" then not_supported else capture_error)))

abbrev pub not_connected : Text
unfolding text
not_connected = text "Connect to a peer before starting screen sharing."

abbrev pub no_display : Text
unfolding text
no_display = text "No display available. Refresh the list and try again."

abbrev pub not_ready : Text
unfolding text
not_ready = text "Control channel is not ready. Wait for the connection and try again."

-- The calls of services; those of `stopLocalCapture` are the session's.
pub data ShareAction : Type 0 where
  call : Command → ShareAction
  start_capture : (source_id : Text) → ShareAction
  add_local_stream : (stream : Text) → ShareAction
  send_control : ControlMessage → ShareAction
  query_input_status : ShareAction

-- The hook's own state, the store of the session, and how many captures have been asked for and have
-- not come yet.
pub record ScreenShare : Type 0 where
  pub sources : List Text
  pub selected_id : Text
  pub list_error : Option Text
  pub share_error : Option Text
  pub store : ConnectionState
  pub asked : ℕ

abbrev pub fresh_share : (store : ConnectionState) → ScreenShare
fresh_share store = record {
  sources = [];
  selected_id = [];
  list_error = none;
  share_error = none;
  store = store;
  asked = 0;
}

abbrev pub is_connected : ConnectionStatus → Bool
is_connected connected = true
is_connected status = false

-- `id || list[0]?.id || ''`
abbrev pub chosen : (id : Text) → List Text → Text
chosen [] [] = []
chosen [] (id ∷ ids) = id
chosen (c ∷ id) ids = c ∷ id

abbrev pub is_empty : Text → Bool
is_empty [] = true
is_empty (c ∷ s) = false

-- `stopLocalCapture`
unfoldable pub stop_local_capture : ScreenShare → ScreenShare × List ShareAction
stop_local_capture s =
    (record s { store = capture_stopped s.store }, map call (stop_capture s.store))

abbrev pub refused : Text → ScreenShare → ScreenShare × List ShareAction
refused error s = (record s { share_error = some error }, [])

-- `startSharing` up to its `await`.
unfoldable pub start_sharing : ScreenShare → ScreenShare × List ShareAction
start_sharing s =
    let cleared = record s { share_error = none } in
    let source_id = chosen s.selected_id s.sources in
    if not (is_connected s.store.status)
    then refused not_connected cleared
    else (if s.store.sharing
        then (cleared, [])
        else (if is_empty source_id
            then refused no_display cleared
            else (record cleared { asked = suc s.asked }, start_capture source_id ∷ [])))

abbrev pub shared : (stream : Text) → Option DisplaySize → ScreenShare → ScreenShare
shared stream size s = record s {
  store = record s.store { local_stream = some stream; sharing = true; shared_display_size = size };
}

abbrev pub share_actions : (stream : Text) → List ShareAction
share_actions stream =
    add_local_stream stream ∷ query_input_status ∷ send_control video_tracks_added ∷ []

-- `startSharing` with the stream that it has waited for: `attach_error` is what `addLocalStream`
-- throws, if it throws, and `notified` is whether the control channel takes the message.
unfoldable pub capture_started :
    (stream : Text) (size : Option DisplaySize) (attach_error : Option Text) (notified : Bool)
    → ScreenShare
    → ScreenShare × List ShareAction
unfolding stop_local_capture
capture_started stream size (some error) notified s = (
  record s { share_error = some error },
  add_local_stream stream ∷ call (stop_stream (some stream)) ∷ [],
)
capture_started stream size none true s = (shared stream size s, share_actions stream)
capture_started stream size none false s =
    let (rolled_back, actions) = stop_local_capture (shared stream size s) in
    (record rolled_back { share_error = some not_ready }, share_actions stream ++ actions)

-- `stopSharing`
unfoldable pub stop_sharing : ScreenShare → ScreenShare × List ShareAction
unfolding stop_local_capture
stop_sharing s =
    let (stopped, actions) = stop_local_capture (record s { share_error = none }) in
    (stopped, actions ++ (send_control video_tracks_ended ∷ []))

pub data ShareEvent : Type 0 where
  start stop : ShareEvent
  captured :
      (stream : Text) (size : Option DisplaySize) (attach_error : Option Text) (notified : Bool)
      → ShareEvent
  -- With the name of the exception, or without one if the browser has no capture at all.
  not_captured : (name : Option Text) → ShareEvent
  refresh : ShareEvent
  listed : (ids : List Text) → ShareEvent
  not_listed : (error : Text) → ShareEvent
  select : (id : Text) → ShareEvent
  -- What the session does meanwhile: its status changes, or it stops the capture as it ends.
  status_changed : ConnectionStatus → ShareEvent
  session_ends : ShareEvent
  -- The answer about the input adapter, which says no if it could not be asked.
  input_status : (supported : Bool) (reason : Option Text) → ShareEvent

abbrev pub capture_failure : Option Text → Text
capture_failure none = not_supported
capture_failure (some name) = map_capture_error name

-- A capture comes only if one was asked for.
abbrev pub if_asked : ScreenShare → ScreenShare × List ShareAction → ScreenShare × List ShareAction
if_asked s r = if eqb s.asked 0 then (s, []) else r

unfoldable pub step : ShareEvent → ScreenShare → ScreenShare × List ShareAction
unfolding start_sharing capture_started stop_sharing stop_local_capture
step start s = start_sharing s
step stop s = stop_sharing s
step (captured stream size attach_error notified) s =
    if_asked s
      (capture_started stream size attach_error notified (record s { asked = s.asked - 1 }))
step (not_captured name) s =
    if_asked s (refused (capture_failure name) (record s { asked = s.asked - 1 }))
step refresh s = (record s { list_error = none }, [])
step (listed ids) s = (record s { sources = ids; selected_id = chosen s.selected_id ids }, [])
step (not_listed error) s = (record s { list_error = some error }, [])
step (select id) s = (record s { selected_id = id }, [])
step (status_changed status) s = (record s { store = record s.store { status = status } }, [])
step session_ends s = stop_local_capture s
step (input_status supported reason) s = (
  record s {
    store = record s.store { input_supported = supported; input_unavailable_reason = reason };
  },
  [],
)

-- The hook after the events of a list, the last one first.
unfoldable pub run : List ShareEvent → ScreenShare
run [] = fresh_share initial
run (e ∷ past) = (step e (run past)).0
