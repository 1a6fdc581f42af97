-- ===== src/Host/Ipc/Codes.antt =====
-- electron/main/ipc.ts and electron/services/ConnectionTokenService.ts: the code that the renderer has
-- been given is the one that is accepted.
use lantern_remote.Common.{
  ℕ, ◌<◌, ◌≡◌, ◌↔◌, refl, ap, subst, Bool, true, List, [], ◌∷◌, Option, none, some, Text, arith,
}
use lantern_remote.Value.{Value, string}
use lantern_remote.Shared.ConnectionToken.{ConnectionTokenInfo, is_valid_token_format}
use lantern_remote.Shared.RemoteInput.Geometry.{Doubles}
use lantern_remote.Host.TokenService.{
  ConnectionTokenService, get_or_create, regenerate, consume, clear,
}
use lantern_remote.Host.TokenService.Laws.{
  IsWellFormed, validate_iff, get_or_create_live, regenerate-valid,
}
use lantern_remote.Host.Input.Adapter.{RemoteInputAdapter}
use lantern_remote.Host.Ipc.{
  IpcCall, get_connection_token, regenerate_connection_token, validate_connection_token,
  consume_connection_token, clear_connection_token, IpcReply, token, verdict, Main, handle, run,
}

-- What the renderer knows of the live code: the last one that it was given, until it has it consumed
-- or cleared.
abbrev pub known_after :
    IpcCall → IpcReply → Option ConnectionTokenInfo → Option ConnectionTokenInfo
known_after consume_connection_token reply known = none
known_after clear_connection_token reply known = none
known_after e (token info) known = some info
known_after e reply known = known

-- The random numbers of a call are in the alphabet.
abbrev pub IsDrawn : IpcCall → Type 0
IsDrawn (get_connection_token draw now later) = (i : ℕ) → draw i < 31
IsDrawn (regenerate_connection_token draw now) = (i : ℕ) → draw i < 31
IsDrawn e = Unit

abbrev pub AreDrawn : List IpcCall → Type 0
AreDrawn [] = Unit
AreDrawn (e ∷ past) = IsDrawn e × AreDrawn past

same_info :
    {a b : ConnectionTokenInfo} {o : Option ConnectionTokenInfo} → o ≡ some a → o ≡ some b → a ≡ b
same_info p q = cc

live-IsWellFormed :
    (s : ConnectionTokenService) (info : ConnectionTokenInfo)
    → s.current ≡ some info
    → is_valid_token_format (string info.code) ≡ true
    → IsWellFormed s
live-IsWellFormed s info c h = record {
  shaped = λ i e. subst (λ j. is_valid_token_format (string j.code) ≡ true) (same_info c e) h;
}

empty-IsWellFormed : IsWellFormed (record { current = none })
empty-IsWellFormed = record { shaped = λ i e. absurd (cc) }

module _ (parse_json : Text → Option Value) (stringify : Value → Text) (f : Doubles)
    (adapter : RemoteInputAdapter) (run_command : List Text → Option Text) where
  handle-known :
      (e : IpcCall) (s : Main)
      → known_after e (handle parse_json stringify f adapter run_command e s).1 s.tokens.current
        ≡ (handle parse_json stringify f adapter run_command e s).0.tokens.current
  unfolding handle get_or_create regenerate consume clear
  handle-known e s = ground arith

  handle-IsWellFormed :
      (e : IpcCall) (s : Main)
      → IsDrawn e
      → IsWellFormed s.tokens
      → IsWellFormed (handle parse_json stringify f adapter run_command e s).0.tokens
  unfolding handle regenerate consume clear
  handle-IsWellFormed (get_connection_token draw now later) s d v =
      let (c, h, t) = get_or_create_live draw d now later v in
      live-IsWellFormed (get_or_create draw now later s.tokens).1
        (get_or_create draw now later s.tokens).0 c h
  handle-IsWellFormed (regenerate_connection_token draw now) s d v =
      live-IsWellFormed (regenerate draw now s.tokens).1 (regenerate draw now s.tokens).0 refl
        (regenerate-valid draw d now s.tokens)
  handle-IsWellFormed consume_connection_token s d v = empty-IsWellFormed
  handle-IsWellFormed clear_connection_token s d v = empty-IsWellFormed
  handle-IsWellFormed e s d v = v

  run-IsWellFormed :
      (file : Option Text) (calls : List IpcCall)
      → AreDrawn calls
      → IsWellFormed (run parse_json stringify f adapter run_command file calls).tokens
  unfolding run
  run-IsWellFormed file [] d = empty-IsWellFormed
  run-IsWellFormed file (e ∷ past) (d, ds) =
      handle-IsWellFormed e (run parse_json stringify f adapter run_command file past) d
        (run-IsWellFormed file past ds)

  -- The code that the renderer knows to be live, from the answers that it has been given.
  abbrev pub known_code : (file : Option Text) → List IpcCall → Option ConnectionTokenInfo
  known_code file [] = none
  known_code file (e ∷ past) =
      known_after e
        (handle parse_json stringify f adapter run_command e
          (run parse_json stringify f adapter run_command file past)).1
        (known_code file past)

  known-current :
      (file : Option Text) (calls : List IpcCall)
      → known_code file calls
        ≡ (run parse_json stringify f adapter run_command file calls).tokens.current
  unfolding run
  known-current file [] = refl
  known-current file (e ∷ past) =
      rw (known-current file past)
        (handle-known e (run parse_json stringify f adapter run_command file past))

  verdict-true : (b : Bool) → (verdict b ≡ verdict true) ↔ (b ≡ true)
  verdict-true b = (λ h. cc, λ h. ap verdict h)

  -- After any calls of the renderer, a code that it presents is accepted exactly when it is the last
  -- one that the main process has given it, has not been consumed or cleared since, and has not
  -- expired. The random numbers drawn are in the alphabet.
  pub accepted_iff_known :
      (file : Option Text) (calls : List IpcCall)
      → AreDrawn calls
      → (now : ℕ) (code : Value)
      → ((handle parse_json stringify f adapter run_command
            (validate_connection_token now code)
            (run parse_json stringify f adapter run_command file calls)).1
          ≡ verdict true)
        ↔ ((info : ConnectionTokenInfo) × (known_code file calls ≡ some info)
            × (now < info.expires_at)
            × (code ≡ string info.code))
  unfolding handle
  accepted_iff_known file calls d now code =
      let (to, back) = validate_iff now code (run-IsWellFormed file calls d) in
      let same = known-current file calls in
      rw same (λ h. to ((verdict-true _).0 h), λ w. ap verdict (back w))
