-- ===== src/Client/Session/Mount.antt =====
-- src/hooks/useSignalingSession.ts, its effect; src/stores/deviceStore.ts and src/App.tsx, which give
-- it the device's id. React runs the effect again if one of its four values has changed, after the
-- clean-up of the last one.
pub mod Sockets
pub mod Strands
use lantern_remote.Common.{
  Bool, true, false, not, ◌&&◌, ◌||◌, List, [], ◌∷◌, ◌++◌, Option, none, some, Text, text, ◌==◌,
  map, if◌then◌else◌,
}
use lantern_remote.Shared.ConnectionToken.{includes}
use lantern_remote.Client.Signaling.{SignalingService, Action, connect, disconnect}
use lantern_remote.Client.Signaling.Events.{SocketEvent, on_event}
use lantern_remote.Client.Session.{Session, no_session, cleaned_up}

pub record DeviceState : Type 0 where
  pub device_id : Text
  pub loading : Bool
  pub error : Option Text

abbrev pub no_device : DeviceState
unfolding text
no_device = record { device_id = text "··· ··· ···"; loading = true; error = none }

-- The end of `boot` in src/App.tsx: the id, or the message of an error.
unfoldable pub booted : Text → DeviceState → DeviceState
booted id d = record d { device_id = id; error = none; loading = false }

unfoldable pub boot_failed : (message : Option Text) → DeviceState → DeviceState
unfolding text
boot_failed none d = record d { error = some (text "Failed to initialize"); loading = false }
boot_failed (some message) d = record d { error = some message; loading = false }

-- `listening`: the listeners of the session are set; `active`: the effect has a clean-up to run.
pub record SessionHook : Type 0 where
  pub device : DeviceState
  pub signaling_url : Text
  pub stun_servers : Text
  pub session : Session
  pub signaling : SignalingService
  pub listening : Bool
  pub active : Bool

pub data HookAction : Type 0 where
  set_stun_servers : Text → HookAction
  close_peer : HookAction
  on_socket : Action → HookAction

-- `loading || !deviceId || deviceId.includes('·')`
unfoldable pub is_ready : DeviceState → Bool
unfolding text
is_ready d = not (d.loading || (d.device_id == [] || includes d.device_id (text "·")))

abbrev pub or_else : Text → Text → Text
or_else [] fallback = fallback
or_else (c ∷ s) fallback = c ∷ s

abbrev pub default_signaling_url : Text
unfolding text
default_signaling_url = text "http://localhost:3001"

-- `signalingUrl`; `env` is `VITE_SIGNALING_SERVER_URL`, where absent is the empty text.
unfoldable pub signaling_url_of : (env settings_url : Text) → Text
signaling_url_of env settings_url = or_else settings_url (or_else env default_signaling_url)

unfoldable pub clean_up : SessionHook → SessionHook × List HookAction
unfolding cleaned_up
clean_up h = if not h.active then (h, []) else (
  record h {
    session = (cleaned_up h.session).0;
    listening = false;
    signaling = (disconnect h.signaling).0;
    active = false;
  },
  close_peer ∷ map on_socket (disconnect h.signaling).1,
)

pub data HookEvent : Type 0 where
  boot : Text → HookEvent
  boot_fails : Option Text → HookEvent
  set_url set_stun : Text → HookEvent
  -- The socket of the signaling service, and what the rest of the program makes of the session.
  socket : SocketEvent → HookEvent
  session_becomes : Session → HookEvent
  unmount : HookEvent

module _ (env : Text) where
  unfoldable pub effect : SessionHook → SessionHook × List HookAction
  effect h =
      let linked = connect (signaling_url_of env h.signaling_url) h.device.device_id h.signaling in
      if not (is_ready h.device) then (h, []) else (
        record h { listening = true; signaling = linked.0; active = true },
        set_stun_servers h.stun_servers ∷ map on_socket linked.1,
      )

  unfoldable pub rendered : (changed : Bool) → SessionHook → SessionHook × List HookAction
  rendered changed h =
      if not changed
      then (h, [])
      else let (cleaned, before) = clean_up h in
        let (started, after) = effect cleaned in (started, before ++ after)

  -- An event of a socket that has been given up reaches nobody.
  abbrev pub socket_event : SocketEvent → Option Bool → SessionHook → SessionHook × List HookAction
  socket_event e none h = (h, [])
  socket_event e (some connected) h = (
    record h { signaling = (on_event e h.signaling).0 },
    map on_socket (on_event e h.signaling).1,
  )

  unfoldable pub step : HookEvent → SessionHook → SessionHook × List HookAction
  step (boot id) h =
      rendered (not (id == h.device.device_id) || h.device.loading)
        (record h { device = booted id h.device })
  step (boot_fails message) h =
      rendered h.device.loading (record h { device = boot_failed message h.device })
  step (set_url t) h = rendered (not (t == h.signaling_url)) (record h { signaling_url = t })
  step (set_stun t) h = rendered (not (t == h.stun_servers)) (record h { stun_servers = t })
  step (socket e) h = socket_event e h.signaling.socket h
  step (session_becomes s) h = (record h { session = s }, [])
  step unmount h = clean_up h

  abbrev pub new_hook : (signaling_url stun_servers : Text) → SessionHook
  new_hook signaling_url stun_servers = record {
    device = no_device;
    signaling_url = signaling_url;
    stun_servers = stun_servers;
    session = no_session;
    signaling = record { socket = none; device_id = none; request_timer = false };
    listening = false;
    active = false;
  }

  -- The last event first: the hook, and all that it has done, the last last.
  unfoldable pub run :
      (signaling_url stun_servers : Text) → List HookEvent → SessionHook × List HookAction
  run signaling_url stun_servers [] = (new_hook signaling_url stun_servers, [])
  run signaling_url stun_servers (e ∷ past) =
      let (h, actions) = run signaling_url stun_servers past in
      let (h', more) = step e h in (h', actions ++ more)
