-- ===== src/Host/Tests/Ipc.antt =====
-- The theorem of the renderer's calls at a code that was issued.
use lantern_remote.Common.{ℕ, ◌<◌, ◌≡◌, ◌↔◌, arith, List, [], ◌∷◌, Option, none, some, Text, true}
use lantern_remote.Value.{Value, string}
use lantern_remote.Shared.ConnectionToken.{ConnectionTokenInfo}
use lantern_remote.Shared.RemoteInput.Geometry.{Doubles}
use lantern_remote.Host.Input.Adapter.{windows_adapter}
use lantern_remote.Host.Ipc.{
  IpcCall, regenerate_connection_token, validate_connection_token, verdict, handle, run,
}
use lantern_remote.Host.Ipc.Codes.{known_code, AreDrawn, accepted_iff_known}

abbrev parse : Text → Option Value
parse s = none

abbrev print : Value → Text
print v = []

abbrev doubles : Doubles
doubles = record { mul = λ a b. a; div = λ a b. a; sub = λ a b. a }

abbrev ends : List Text → Option Text
ends args = none

abbrev third : ℕ → ℕ
third i = 2

abbrev calls : List IpcCall
calls = regenerate_connection_token third 1000 ∷ []

drawn : AreDrawn calls
drawn = (λ i. omega arith, tt)

abbrev presented : Value
presented = string (67 ∷ 67 ∷ 67 ∷ 67 ∷ 67 ∷ 67 ∷ [])

accepted_iff_known_example :
    ((handle parse print doubles windows_adapter ends
        (validate_connection_token 2000 presented)
        (run parse print doubles windows_adapter ends none calls)).1
      ≡ verdict true)
    ↔ ((info : ConnectionTokenInfo) × (known_code parse print doubles windows_adapter ends none
            calls
          ≡ some info)
        × (2000 < info.expires_at)
        × (presented ≡ string info.code))
accepted_iff_known_example =
    accepted_iff_known parse print doubles windows_adapter ends none calls drawn 2000 presented
