-- ===== src/Client/History/Stored.antt =====
-- src/stores/historyStore.ts: the stored history is read back.
use lantern_remote.Common.{◌≡◌, refl, true, List, [], ◌∷◌, some, arith, take-eq_self, Text-discrete}
use lantern_remote.Value.{array, read}
use lantern_remote.Client.Store.{SessionRole, client, host}
use lantern_remote.Client.History.Order.{is_history, sort-eq_self, history_is_bounded}
use lantern_remote.Client.History.{
  step, next_history, HistoryEntry, max_history_entries, role_text, to_role, as_entry, entries,
  load_history, encode_entry, encode_entries, Text, Option, Value, run, opened, step, save_history,
  Bool, HistoryEvent,
}

to_role-text : (role : SessionRole) → to_role (role_text role) ≡ some role
unfolding to_role role_text Text-discrete
to_role-text client = refl
to_role-text host = refl

as_entry-encode : (e : HistoryEntry) → as_entry (encode_entry e) ≡ some e
unfolding as_entry encode_entry read
as_entry-encode e = rw (to_role-text e.role) refl

entries-encode : (es : List HistoryEntry) → entries (encode_entries es) ≡ es
unfolding entries encode_entries
entries-encode [] = refl
entries-encode (e ∷ es) = rw (as_entry-encode e, entries-encode es) refl

load-encode :
    (es : List HistoryEntry)
    → is_history es ≡ true
    → load_history (some (array (encode_entries es))) ≡ es
unfolding load_history
load-encode es h =
    rw (entries-encode es, sort-eq_self es (ground arith))
      (take-eq_self max_history_entries es (ground arith))

module _ (parse_json : Text → Option Value) (stringify : Value → Text) where
  -- After an event that was saved, the application opens next time with the same history, where
  -- `JSON.parse` gives back what `JSON.stringify` was given.
  pub history_is_kept :
      (stored : Option Text) (events : List (Bool × HistoryEvent)) (e : HistoryEvent)
      → let s = run parse_json stringify stored ((true, e) ∷ events) in
        parse_json (stringify (array (encode_entries s.history)))
          ≡ some (array (encode_entries s.history))
        → opened parse_json stringify s.stored ≡ s
  unfolding run opened step save_history
  history_is_kept stored events e h =
      let bounded = history_is_bounded parse_json stringify stored ((true, e) ∷ events) in
      rw (h, load-encode (next_history e (run parse_json stringify stored events).history) bounded)
        refl
