-- ===== src/Host/Ipc.antt =====
-- electron/main/ipc.ts: the calls of the renderer, delegated to the services that the main process
-- keeps. The answer of `getDeviceId` comes when the attempt of Identity ends.
pub mod Codes
use lantern_remote.Common.{ℕ, Bool, List, [], ◌∷◌, Option, none, some, Text}
use lantern_remote.Value.{Value}
use lantern_remote.Shared.ConnectionToken.{ConnectionTokenInfo}
use lantern_remote.Shared.RemoteInput.Geometry.{Doubles}
use lantern_remote.Host.TokenService.{
  ConnectionTokenService, get_or_create, regenerate, validate, consume, clear,
}
use lantern_remote.Host.Identity
use lantern_remote.Host.Identity.{DeviceIdentityService, started, Answer}
use lantern_remote.Host.Clipboard.{read_text, write_text}
use lantern_remote.Host.Input.Adapter.{RemoteInputAdapter}
use lantern_remote.Host.Input.Dispatch.{dispatch_result, DispatchResult}

-- A call, with the time and the random numbers of the moment, and what Electron says in it.
pub data IpcCall : Type 0 where
  get_app_info get_remote_input_status : IpcCall
  get_device_id : (caller : ℕ) → IpcCall
  identity_event : Identity.IdentityEvent → IpcCall
  get_desktop_sources : (sources : Option (List Text)) → IpcCall
  remote_input : (raw : Value) → IpcCall
  get_connection_token : (draw : ℕ → ℕ) (now later : ℕ) → IpcCall
  regenerate_connection_token : (draw : ℕ → ℕ) (now : ℕ) → IpcCall
  validate_connection_token : (now : ℕ) (code : Value) → IpcCall
  consume_connection_token clear_connection_token : IpcCall
  get_clipboard_text : (clipboard : Option Text) → IpcCall
  set_clipboard_text : (works : Bool) (written : Value) → IpcCall

pub data IpcReply : Type 0 where
  app_info nothing : IpcReply
  ids : List Answer → IpcReply
  sources : Option (List Text) → IpcReply
  input_result : DispatchResult → IpcReply
  input_status : (supported : Bool) → IpcReply
  token : ConnectionTokenInfo → IpcReply
  verdict : Bool → IpcReply
  clipboard_text : Text → IpcReply

pub record Main : Type 0 where
  pub tokens : ConnectionTokenService
  pub identity : DeviceIdentityService

abbrev pub booted : (file : Option Text) → Main
booted file = record { tokens = record { current = none }; identity = started file }

abbrev pub issue : ConnectionTokenInfo × ConnectionTokenService → Main → Main × IpcReply
issue (info, tokens) s = (record s { tokens = tokens }, token info)

abbrev pub spend : Bool × ConnectionTokenService → Main → Main × IpcReply
spend (had, tokens) s = (record s { tokens = tokens }, verdict had)

abbrev pub identified : DeviceIdentityService × List Answer → Main → Main × IpcReply
identified (identity, answers) s = (record s { identity = identity }, ids answers)

module _ (parse_json : Text → Option Value) (stringify : Value → Text) (f : Doubles)
    (adapter : RemoteInputAdapter) (run_command : List Text → Option Text) where
  unfoldable pub handle : IpcCall → Main → Main × IpcReply
  handle get_app_info s = (s, app_info)
  handle get_remote_input_status s = (s, input_status adapter.supported)
  handle (get_device_id caller) s =
      identified (Identity.step parse_json stringify (Identity.get_device_id caller) s.identity) s
  handle (identity_event e) s = identified (Identity.step parse_json stringify e s.identity) s
  handle (get_desktop_sources found) s = (s, sources found)
  handle (remote_input raw) s = (s, input_result (dispatch_result run_command f adapter raw))
  handle (get_connection_token draw now later) s = issue (get_or_create draw now later s.tokens) s
  handle (regenerate_connection_token draw now) s = issue (regenerate draw now s.tokens) s
  handle (validate_connection_token now code) s = (s, verdict (validate now code s.tokens))
  handle consume_connection_token s = spend (consume s.tokens) s
  handle clear_connection_token s = (record s { tokens = clear s.tokens }, nothing)
  handle (get_clipboard_text clipboard) s = (s, clipboard_text (read_text clipboard))
  handle (set_clipboard_text works written) s = (s, verdict (write_text works written))

  -- The main process after the calls of a list, the last one first.
  unfoldable pub run : (file : Option Text) → List IpcCall → Main
  run file [] = booted file
  run file (e ∷ past) = (handle e (run file past)).0
