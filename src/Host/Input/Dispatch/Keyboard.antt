-- ===== src/Host/Input/Dispatch/Keyboard.antt =====
-- electron/services/RemoteInputService.ts on Linux: what a request makes xdotool do.
use lantern_remote.Common.{
  none, ap, subst, ℕ, ◌≡◌, ◌≢◌, refl, true, false, List, [], ◌∷◌, some, Text, arith, present,
  Option-cases, inl, inr, present-eq_some, Option,
}
use lantern_remote.Dict.{get}
use lantern_remote.Value.{Number, Value}
use lantern_remote.Shared.RemoteInput.{
  keyboard, KeyEvent, keydown, keyup, RemoteInputRequest, parse_remote_input_request,
  key_event_text,
}
use lantern_remote.Shared.RemoteInput.Keys.{has, keyboard_code_whitelist}
use lantern_remote.Shared.RemoteInput.Validity.{IsValid, parse_request_sound}
use lantern_remote.Shared.RemoteInput.Geometry.{Doubles}
use lantern_remote.Host.Input.Adapter.{rejected, idle, runs, Reply}
use lantern_remote.Host.Input.LinuxKeymap.{keymap, is_mapped, keymap_complete}
use lantern_remote.Host.Input.Linux.{linux_adapter}
use lantern_remote.Host.Input.Dispatch.{
  failure, result_of, request_kind, dispatch_result, dispatch, perform,
}

keysym_of :
    (code : Text)
    → is_mapped keymap code ≡ true
    → (keysym : Text) × (present (get code keymap) ≡ some keysym)
keysym_of code h = elim (Option-cases (present (get code keymap))) [
  | inl unmapped ↦ absurd (ground arith)
  | inr found ↦ found
]

whitelisted :
    (raw : Value) (r : RemoteInputRequest) (event : KeyEvent) (key code : Text)
    → parse_remote_input_request raw ≡ some r
    → r.message ≡ keyboard event key code
    → has code keyboard_code_whitelist ≡ true
whitelisted raw r event key code h e = (subst IsValid e (parse_request_sound raw r h).0).2

same_failure :
    (run later : List Text → Option Text) (reply : Option Reply)
    → ((args : List Text) → reply ≢ some (runs args))
    → failure run reply ≡ failure later reply
same_failure run later none h = refl
same_failure run later (some (rejected reason)) h = refl
same_failure run later (some idle) h = refl
same_failure run later (some (runs args)) h = absurd (h args refl)

module _ (f : Doubles) (show_round : Number → Text) (rounded_hundredths : Number → ℕ) where
  performs_key :
      (r : RemoteInputRequest) (event : KeyEvent) (key code keysym : Text)
      → r.message ≡ keyboard event key code
      → present (get code keymap) ≡ some keysym
      → perform f (linux_adapter show_round rounded_hundredths true) (some r)
        ≡ some (runs (key_event_text event ∷ keysym ∷ []))
  unfolding linux_adapter
  performs_key r keydown key code keysym e k = rw (e, k) refl
  performs_key r keyup key code keysym e k = rw (e, k) refl

  -- With xdotool installed, every key request that the main process accepts runs one command: the
  -- press or the release of the keysym that the table has for its code.
  pub dispatch_key :
      (raw : Value) (r : RemoteInputRequest) (event : KeyEvent) (key code : Text)
      → parse_remote_input_request raw ≡ some r
      → r.message ≡ keyboard event key code
      → (keysym : Text) × (get code keymap ≡ some keysym)
        × (keysym ≢ [])
        × (dispatch f (linux_adapter show_round rounded_hundredths true) raw
            ≡ some (runs (key_event_text event ∷ keysym ∷ [])))
  unfolding dispatch
  dispatch_key raw r event key code h e =
      let listed = whitelisted raw r event key code h e in
      let (keysym, found) = keysym_of code (keymap_complete code listed) in
      let (mapped, named) = present-eq_some (get code keymap) keysym found in
      (keysym, mapped, named, rw h (performs_key r event key code keysym e found))

  silent :
      (raw : Value) (args : List Text)
      → dispatch f (linux_adapter show_round rounded_hundredths false) raw ≢ some (runs args)
  unfolding dispatch linux_adapter
  silent raw args h = ground arith

  -- Without xdotool no request runs a command, whatever it asks for, and how a command might end
  -- makes no difference to what the caller is told.
  pub unsupported_is_silent :
      (run later : List Text → Option Text) (raw : Value)
      → let linux = linux_adapter show_round rounded_hundredths false in
        ((args : List Text) → dispatch f linux raw ≢ some (runs args))
        × (dispatch_result run f linux raw ≡ dispatch_result later f linux raw)
  unfolding dispatch_result
  unsupported_is_silent run later raw =
      let reply = dispatch f (linux_adapter show_round rounded_hundredths false) raw in
      (
        silent raw,
        ap (result_of (request_kind (parse_remote_input_request raw)))
            (same_failure run later reply (silent raw)),
      )
