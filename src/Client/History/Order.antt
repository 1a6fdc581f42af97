-- ===== src/Client/History/Order.antt =====
-- src/stores/historyStore.ts: the history is bounded, newest first.
use lantern_remote.Common.{
  ℕ, zero, suc, leb, ◌≡◌, refl, Bool, true, false, not, ◌&&◌, List, [], ◌∷◌, Option, none, some,
  Text, arith, take, length, length-take,
}
use lantern_remote.Value.{Number, Value, array}
use lantern_remote.Shared.RemoteInput.Geometry.{lt_number}
use lantern_remote.Client.Store.{SessionRole}
use lantern_remote.Client.History.{
  new_entry, HistoryEntry, max_history_entries, insert, sort, entries, shown, load_history,
  HistoryEvent, add_entry, clear_history, opened, next_history, step, run,
}

lt_number-asym : (a b : Number) → lt_number a b ≡ true → lt_number b a ≡ false
lt_number-asym a b h = ground arith

-- No entry is newer than the one before it.
abbrev pub sorted : List HistoryEntry → Bool
sorted [] = true
sorted (e ∷ []) = true
sorted (e ∷ h ∷ hs) = not (lt_number e.timestamp h.timestamp) && sorted (h ∷ hs)

insert-sorted :
    (e : HistoryEntry) (hs : List HistoryEntry) → sorted hs ≡ true → sorted (insert e hs) ≡ true
unfolding insert
insert-sorted e [] k = refl
insert-sorted e (h ∷ []) k = ground (arith, lt_number-asym e.timestamp h.timestamp)
insert-sorted e (h ∷ i ∷ hs) k =
    ground (arith, lt_number-asym e.timestamp h.timestamp, insert-sorted e (i ∷ hs))

pub sort-sorted : (es : List HistoryEntry) → sorted (sort es) ≡ true
unfolding sort
sort-sorted [] = refl
sort-sorted (e ∷ es) = insert-sorted e (sort es) (sort-sorted es)

insert_newest :
    (e : HistoryEntry) (hs : List HistoryEntry) → sorted (e ∷ hs) ≡ true → insert e hs ≡ e ∷ hs
unfolding insert
insert_newest e [] k = refl
insert_newest e (h ∷ hs) k = ground arith

sorted-tail :
    (e : HistoryEntry) (hs : List HistoryEntry) → sorted (e ∷ hs) ≡ true → sorted hs ≡ true
sorted-tail e [] k = refl
sorted-tail e (h ∷ hs) k = ground arith

pub sort-eq_self : (es : List HistoryEntry) → sorted es ≡ true → sort es ≡ es
unfolding sort
sort-eq_self [] k = refl
sort-eq_self (e ∷ es) k = rw (sort-eq_self es (sorted-tail e es k)) (insert_newest e es k)

take-sorted : (n : ℕ) (es : List HistoryEntry) → sorted es ≡ true → sorted (take n es) ≡ true
take-sorted zero es k = refl
take-sorted (suc n) [] k = refl
take-sorted (suc zero) (e ∷ es) k = refl
take-sorted (suc (suc n)) (e ∷ []) k = refl
take-sorted (suc (suc n)) (e ∷ h ∷ es) k = ground (arith, take-sorted (suc n) (h ∷ es))

-- At most 20 entries, the newest first.
abbrev pub is_history : List HistoryEntry → Bool
is_history es = sorted es && leb (length es) max_history_entries

pub shown-is_history : (es : List HistoryEntry) → is_history (shown es) ≡ true
shown-is_history es = ground (
  arith,
  take-sorted max_history_entries (sort es) (sort-sorted es),
  length-take max_history_entries (sort es),
)

load-is_history : (v : Option Value) → is_history (load_history v) ≡ true
unfolding load_history
load-is_history none = refl
load-is_history (some (array vs)) = shown-is_history (entries vs)
load-is_history (some v) = ground arith

next-is_history :
    (e : HistoryEvent) (history : List HistoryEntry) → is_history (next_history e history) ≡ true
unfolding next_history
next-is_history (add_entry device_id role success now) history =
    shown-is_history (new_entry device_id role success now ∷ history)
next-is_history clear_history history = refl

module _ (parse_json : Text → Option Value) (stringify : Value → Text) where
  -- Whatever `localStorage` holds at the start, and whatever is added or cleared, by whatever clock,
  -- the history has at most 20 entries, and none is newer than the one before it.
  pub history_is_bounded :
      (stored : Option Text) (events : List (Bool × HistoryEvent))
      → is_history (run parse_json stringify stored events).history ≡ true
  unfolding run opened step
  history_is_bounded none [] = refl
  history_is_bounded (some s) [] = load-is_history (parse_json s)
  history_is_bounded stored ((saves, e) ∷ past) =
      next-is_history e (run parse_json stringify stored past).history

  -- An entry added by a clock that is not behind the newest entry comes first, before the others in
  -- their order, of which one more than 19 is dropped at the end.
  pub newest_comes_first :
      (stored : Option Text) (events : List (Bool × HistoryEvent)) (device_id : Text)
      (role : SessionRole) (success saves : Bool) (now : ℕ)
      → sorted
          (new_entry device_id role success now ∷ (run parse_json stringify stored events).history)
        ≡ true
      → (run parse_json stringify stored
          ((saves, add_entry device_id role success now) ∷ events)).history
        ≡ new_entry device_id role success now
          ∷ take 19 (run parse_json stringify stored events).history
  unfolding run step next_history
  newest_comes_first stored events device_id role success saves now h = rw (sort-eq_self _ h) refl
