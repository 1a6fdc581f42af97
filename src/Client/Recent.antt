-- ===== src/Client/Recent.antt =====
-- src/components/RecentConnections.tsx, and `handleConnectToRemote` of src/pages/HomePage.tsx: the
-- list of recent connections and its buttons.
use lantern_remote.Common.{
  refl, Bool-cases, inl, inr, ◌*◌, ◌+◌, ◌<◌, ◌≤◌, ℕ, ◌-◌, ◌/◌, ◌≡◌, Bool, true, false, List, Option,
  none, arith, Text, ltb, if◌then◌else◌, ◌*◌, ◌≤◌, ◌<◌, ◌+◌,
}
use lantern_remote.Client.Store.{ConnectionStatus, SessionRole, client, host}
use lantern_remote.Client.Session.{Session, Command}
use lantern_remote.Client.Session.Actions.{connect_to_remote_begin, connect_to_remote_failed}

-- What `formatDate` shows; `on_date` is left to `toLocaleDateString`.
pub data Age : Type 0 where
  just_now : Age
  minutes hours days : ℕ → Age
  on_date : (timestamp : ℕ) → Age

-- A time that is still to come counts as now, as it does for the source's negative difference.
unfoldable pub format_date : (now timestamp : ℕ) → Age
format_date now timestamp =
    let diff = now - timestamp in
    if ltb (diff / 60000) 1
    then just_now
    else (if ltb (diff / 60000) 60
        then minutes (diff / 60000)
        else (if ltb (diff / 3600000) 24
            then hours (diff / 3600000)
            else (if ltb (diff / 86400000) 7 then days (diff / 86400000) else on_date timestamp)))

pub data RowEnd : Type 0 where
  connect_button failed_mark nothing : RowEnd

-- What stands at the end of an entry's row.
unfoldable pub row_end : (success : Bool) → SessionRole → RowEnd
row_end false role = failed_mark
row_end true client = connect_button
row_end true host = nothing

-- A click on a row's button: `setRemoteId`, then the first part of `connectToRemote`.
unfoldable pub handle_connect_to_remote : (device_id : Text) → Session → Session × List Command
handle_connect_to_remote device_id s =
    connect_to_remote_begin (record s { store = record s.store { remote_id = device_id } })

-- The button is there in a session too: a click makes a host in a session a client that connects,
-- and once the server has refused the second session, this side has no role and has failed, with the
-- room of the session that goes on.
pub reconnect_in_session :
    (device_id : Text) (error : Option Text) (s : Session)
    → let clicked = (handle_connect_to_remote device_id s).0 in
      let refused = (connect_to_remote_failed device_id error clicked).0 in
      (refused.store.role ≡ none)
      × (refused.store.status ≡ ConnectionStatus.failed)
      × (refused.store.room_id ≡ s.store.room_id)
      × (refused.store.remote_stream ≡ s.store.remote_stream)
      × (refused.store.sharing ≡ s.store.sharing)
unfolding handle_connect_to_remote connect_to_remote_begin connect_to_remote_failed
reconnect_in_session device_id error s = ground arith

-- `n` whole units have passed, at least one and fewer than `limit`.
abbrev InUnits : (unit limit n passed : ℕ) → Type 0
InUnits unit limit n passed =
    (n * unit ≤ passed) × (passed < (n + 1) * unit) × (0 < n) × (n < limit)

-- What an age says of the time that has passed.
abbrev pub Tells : (timestamp passed : ℕ) → Age → Type 0
Tells timestamp passed just_now = passed < 60000
Tells timestamp passed (minutes n) = InUnits 60000 60 n passed
Tells timestamp passed (hours n) = InUnits 3600000 24 n passed
Tells timestamp passed (days n) = InUnits 86400000 7 n passed
Tells timestamp passed (on_date at) = (at ≡ timestamp) × (604800000 ≤ passed)

-- The age shown is the time that has passed, rounded down to a whole number of the largest unit that
-- fits, and a date from a week on.
pub format_date_bounds :
    (now timestamp : ℕ) → Tells timestamp (now - timestamp) (format_date now timestamp)
unfolding format_date
format_date_bounds now timestamp =
    let d = now - timestamp in
    elim (Bool-cases (ltb (d / 60000) 1)) [
      | inl a ↦ rw a (ground arith)
      | inr a ↦ rw a (elim (Bool-cases (ltb (d / 60000) 60)) [
        | inl b ↦ rw b (ground arith)
        | inr b ↦ rw b (elim (Bool-cases (ltb (d / 3600000) 24)) [
          | inl c ↦ rw c (ground arith)
          | inr c ↦ rw c (elim (Bool-cases (ltb (d / 86400000) 7)) [
            | inl e ↦ rw e (ground arith)
            | inr e ↦ rw e (refl, ground arith)
          ])
        ])
      ])
    ]
