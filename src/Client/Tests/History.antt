-- ===== src/Client/Tests/History.antt =====
-- The theorems of the history at concrete entries.
use lantern_remote.Common.{◌≡◌, true, [], ◌∷◌, Option, none, some, Text, text}
use lantern_remote.Value.{Value, array}
use lantern_remote.Client.Store.{client}
use lantern_remote.Client.History.{HistoryEvent, add_entry, new_entry, encode_entries, run}
use lantern_remote.Client.History.Order.{is_history, history_is_bounded}

abbrev device : Text
unfolding text
device = text "123456789"

-- The one text and the one value of this run.
abbrev value : Value
value = array (encode_entries (new_entry device client true 5 ∷ []))

abbrev parse : Text → Option Value
parse t = some value

abbrev print : Value → Text
print v = device

abbrev first : HistoryEvent
first = add_entry device client true 5

history_is_bounded_example : is_history (run parse print none ((true, first) ∷ [])).history ≡ true
history_is_bounded_example = history_is_bounded parse print none ((true, first) ∷ [])
