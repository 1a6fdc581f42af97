-- ===== src/Client/History.antt =====
-- src/stores/historyStore.ts: the history of connections and its copy in `localStorage`. Fields of a
-- stored entry that nothing reads are left out.
pub mod Order
pub mod Stored
use lantern_remote.Common.{
  ℕ, Bool, true, false, List, [], ◌∷◌, Option, none, some, Text, text, ◌==◌, take, if◌then◌else◌,
  ◌>>=◌,
}
use lantern_remote.Value.{
  Number, finite, Value, boolean, number, string, array, object, Items, nil, item, Fields, end,
  field, read, as_string,
}
use lantern_remote.Client.Store.{SessionRole, client, host}
use lantern_remote.Shared.RemoteInput.Geometry.{lt_number}

pub record HistoryEntry : Type 0 where
  pub device_id : Text
  pub timestamp : Number
  pub role : SessionRole
  pub success : Bool

abbrev pub max_history_entries : ℕ
max_history_entries = 20

-- `sort((a, b) => b.timestamp - a.timestamp)`, which keeps the order of equal elements.
unfoldable pub insert : HistoryEntry → List HistoryEntry → List HistoryEntry
insert e [] = e ∷ []
insert e (h ∷ hs) =
    let rest = insert e hs in if lt_number e.timestamp h.timestamp then h ∷ rest else e ∷ h ∷ hs

unfoldable pub sort : List HistoryEntry → List HistoryEntry
sort [] = []
sort (e ∷ es) = insert e (sort es)

abbrev pub role_text : SessionRole → Text
unfolding text
role_text client = text "client"
role_text host = text "host"

unfoldable pub to_role : Text → Option SessionRole
to_role s =
    if s == role_text client then some client else (if s == role_text host then some host else none)

abbrev pub as_number : Value → Option Number
as_number (number n) = some n
as_number _ = none

abbrev pub as_boolean : Value → Option Bool
as_boolean (boolean b) = some b
as_boolean _ = none

-- The test of `filter`, with the entry that it lets through.
unfoldable pub as_entry : Value → Option HistoryEntry
unfolding read to_role
as_entry (object fs) = do
  device_id ← as_string (read "deviceId" fs)
  timestamp ← as_number (read "timestamp" fs)
  role_name ← as_string (read "role" fs)
  role ← to_role role_name
  success ← as_boolean (read "success" fs)
  some (record { device_id = device_id; timestamp = timestamp; role = role; success = success })
as_entry _ = none

abbrev pub add_if : Option HistoryEntry → List HistoryEntry → List HistoryEntry
add_if none es = es
add_if (some e) es = e ∷ es

unfoldable pub entries : Items → List HistoryEntry
unfolding as_entry
entries nil = []
entries (item v vs) = add_if (as_entry v) (entries vs)

abbrev pub shown : List HistoryEntry → List HistoryEntry
shown es = take max_history_entries (sort es)

-- `loadHistory`, on what the stored text is parsed to, if there is one that can be parsed.
unfoldable pub load_history : Option Value → List HistoryEntry
unfolding entries sort
load_history (some (array vs)) = shown (entries vs)
load_history _ = []

-- What `saveHistory` gives to `JSON.stringify`.
unfoldable pub encode_entry : HistoryEntry → Value
encode_entry e = object (
    field "deviceId" (string e.device_id) (
      field "timestamp" (number e.timestamp)
        (field "role" (string (role_text e.role)) (field "success" (boolean e.success) end))))

unfoldable pub encode_entries : List HistoryEntry → Items
unfolding encode_entry
encode_entries [] = nil
encode_entries (e ∷ es) = item (encode_entry e) (encode_entries es)

-- The store, and the text under its key in `localStorage`.
pub record HistoryStore : Type 0 where
  pub history : List HistoryEntry
  pub stored : Option Text

pub data HistoryEvent : Type 0 where
  add_entry : (device_id : Text) (role : SessionRole) (success : Bool) (now : ℕ) → HistoryEvent
  clear_history : HistoryEvent

abbrev pub new_entry :
    (device_id : Text) (role : SessionRole) (success : Bool) (now : ℕ) → HistoryEntry
new_entry device_id role success now = record {
  device_id = device_id;
  timestamp = finite false now 0;
  role = role;
  success = success;
}

-- The history after one event.
unfoldable pub next_history : HistoryEvent → List HistoryEntry → List HistoryEntry
unfolding sort
next_history (add_entry device_id role success now) history =
    shown (new_entry device_id role success now ∷ history)
next_history clear_history history = []

module _ (parse_json : Text → Option Value) (stringify : Value → Text) where
  -- The start of the application.
  unfoldable pub opened : (stored : Option Text) → HistoryStore
  unfolding load_history
  opened stored = record { history = load_history (do s ← stored; parse_json s); stored = stored }

  -- `saves` is whether `localStorage` takes the text; its error is caught.
  unfoldable pub save_history :
      (saves : Bool) → List HistoryEntry → (stored : Option Text) → Option Text
  unfolding encode_entries
  save_history saves history stored =
      if saves then some (stringify (array (encode_entries history))) else stored

  unfoldable pub step : (saves : Bool) → HistoryEvent → HistoryStore → HistoryStore
  unfolding next_history save_history
  step saves e s =
      let history = next_history e s.history in
      record { history = history; stored = save_history saves history s.stored }

  -- The store after the events of a list, the last one first, each with whether it was saved.
  unfoldable pub run : (stored : Option Text) → List (Bool × HistoryEvent) → HistoryStore
  run stored [] = opened stored
  run stored ((saves, e) ∷ past) = step saves e (run stored past)
