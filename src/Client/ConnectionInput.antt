-- ===== src/Client/ConnectionInput.antt =====
-- src/components/ConnectionInput.tsx: what the two fields keep of what is typed, and the button.
pub mod Typed
use lantern_remote.Common.{
  ℕ, Bool, true, false, not, ◌&&◌, List, [], ◌∷◌, ◌++◌, Option, none, some, Text, ltb, eqb, length,
  keep, slice, if◌then◌else◌,
}
use lantern_remote.Value.{string}
use lantern_remote.Shared.DeviceId.{is_digit, space}
use lantern_remote.Shared.ConnectionToken.{is_valid_token_format, normalize_token_input}
use lantern_remote.Client.Store.{
  ConnectionStatus, idle, connecting, waiting_for_approval, approved, negotiating, connected,
  disconnected, failed,
}

-- `BUSY_STATES`
abbrev pub is_busy : ConnectionStatus → Bool
is_busy idle = false
is_busy disconnected = false
is_busy failed = false
is_busy _ = true

abbrev pub is_empty : Text → Bool
is_empty [] = true
is_empty (c ∷ s) = false

unfoldable pub can_connect :
    (trim : Text → Text) (remote_id token_input : Text) (status : ConnectionStatus)
    (signaling_connected : Bool)
    → Bool
can_connect trim remote_id token_input status signaling_connected =
    signaling_connected
    && (not (is_busy status)
        && (not (is_empty (trim remote_id)) && is_valid_token_format (string token_input)))

-- The third child of the row.
pub data ConnectButton : Type 0 where
  cancel : ConnectButton
  connect : (enabled : Bool) → ConnectButton

unfoldable pub button :
    (trim : Text → Text) (remote_id token_input : Text) (status : ConnectionStatus)
    (signaling_connected : Bool)
    → ConnectButton
button trim remote_id token_input status signaling_connected =
    if is_busy status
    then cancel
    else connect (can_connect trim remote_id token_input status signaling_connected)

-- `parts.join(' ')`
abbrev pub join_spaced : List Text → Text
join_spaced [] = []
join_spaced (part ∷ []) = part
join_spaced (part ∷ next ∷ rest) = part ++ (space ++ join_spaced (next ∷ rest))

unfoldable pub parts_of : (digits : Text) → List Text
parts_of digits =
    keep (λ part. not (is_empty part))
      (slice 0 3 digits ∷ (slice 3 6 digits ∷ (slice 6 9 digits ∷ [])))

unfoldable pub format_input : Text → Text
format_input value = join_spaced (parts_of (slice 0 9 (keep is_digit value)))
