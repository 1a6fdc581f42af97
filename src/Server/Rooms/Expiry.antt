-- ===== src/Server/Rooms/Expiry.antt =====
-- What removal and expiry leave behind.
use lantern_remote.Common.{
  ℕ, ◌≡◌, refl, Bool, false, ◌||◌, inl, inr, List, [], ◌∷◌, Option, none, some, arith, Text, ◌==◌,
  keep, Option-cases, if◌then◌else◌, ◌∙◌, Bool-cases,
}
use lantern_remote.Dict.{Dict, get, del, get-del}
use lantern_remote.Server.Rooms.{
  ConnectionRoom, ConnectionRooms, get_room, get_by_device, remove, remove_all, expire_pending,
  is_expired, values,
}
use lantern_remote.Server.Rooms.Consistency.{Distinct, IsConsistent}

-- After a removal the room is gone and all others are as they were.
pub get_room-remove :
    (id j : Text) (s : ConnectionRooms)
    → get_room j (remove id s).1 ≡ (if id == j then none else get_room j s)
unfolding get_room remove
get_room-remove id j s = elim (Option-cases (get id s.rooms)) [
  | inl gone ↦ rw gone (ground arith)
  | inr (r, there) ↦ rw there (get-del j id s.rooms)
]

-- Removing a stored room frees its two devices and no other.
pub get_by_device-remove :
    (id d : Text) (r : ConnectionRoom) {s : ConnectionRooms}
    → IsConsistent s
    → get_room id s ≡ some r
    → get_by_device d (remove id s).1 ≡ (
        if r.host_device_id == d
        then none
        else (if r.client_device_id == d then none else get_by_device d s))
unfolding get_room get_by_device remove
get_by_device-remove id d r {s} v there = rw there (elim (Option-cases (get d s.by_device)) [
  | inl n ↦ ground (arith, lookups, n)
  | inr (j, h) ↦
      let (q, stored, side) = v.backed d j h in
      ground (arith, lookups, h, side, stored, get-del j id s.rooms)
])
  where
    lookups : get d (del r.host_device_id (del r.client_device_id s.by_device)) ≡ (
        if r.host_device_id == d
        then none
        else (if r.client_device_id == d then none else get d s.by_device))
    lookups = rw (
      get-del d r.host_device_id (del r.client_device_id s.by_device),
      get-del d r.client_device_id s.by_device,
    )

-- Some room of the list has this id.
abbrev mentions : Text → List ConnectionRoom → Bool
mentions j [] = false
mentions j (r ∷ rs) = (r.id == j) || mentions j rs

get_room-remove_all :
    (j : Text) (rs : List ConnectionRoom) (s : ConnectionRooms)
    → get_room j (remove_all rs s) ≡ (if mentions j rs then none else get_room j s)
unfolding remove_all
get_room-remove_all j [] s = refl
get_room-remove_all j (r ∷ rs) s =
    ground (arith, get_room-remove_all j rs (remove r.id s).1, get_room-remove r.id j s)

-- What expiry leaves of a lookup.
abbrev pub survivor : ℕ → Option ConnectionRoom → Option ConnectionRoom
survivor now none = none
survivor now (some r) = if is_expired now r then none else some r

abbrev Keyed : Dict ConnectionRoom → Type 0
Keyed m = (j : Text) (r : ConnectionRoom) → get j m ≡ some r → r.id ≡ j

Keyed-tail :
    (k : Text) (w : ConnectionRoom) (m : Dict ConnectionRoom)
    → get k m ≡ none
    → Keyed ((k, w) ∷ m)
    → Keyed m
unfolding get
Keyed-tail k w m n h j r e = ground (arith, h j r)

abbrev is_due : ℕ → Option ConnectionRoom → Bool
is_due now none = false
is_due now (some r) = is_expired now r

-- An id is among the expired rooms exactly when the room stored under it has expired.
mentions-keep :
    (now : ℕ) (j : Text) (m : Dict ConnectionRoom)
    → Distinct m
    → Keyed m
    → mentions j (keep (is_expired now) (values m)) ≡ is_due now (get j m)
unfolding get
mentions-keep now j [] d h = refl
mentions-keep now j ((k, w) ∷ m) d h =
    let own : w.id ≡ k = h k w (ground arith) in
    let rest = mentions-keep now j m d.1 (Keyed-tail k w m d.0 h) in
    elim (Bool-cases (is_expired now w)) [
      | inl e ↦ rw e (ground (arith, own, d.0, e, rest))
      | inr e ↦ rw e (ground (arith, own, d.0, e, rest))
    ]

unless_due :
    (now : ℕ) (o : Option ConnectionRoom) → (if is_due now o then none else o) ≡ survivor now o
unless_due now none = refl
unless_due now (some r) = refl

-- Expiry removes exactly the rooms that have been pending for the time to live, and leaves every
-- other room as it was.
pub get_room-expire_pending :
    (now : ℕ) (id : Text) {s : ConnectionRooms}
    → IsConsistent s
    → get_room id (expire_pending now s).1 ≡ survivor now (get_room id s)
unfolding expire_pending get_room
get_room-expire_pending now id {s} v =
    get_room-remove_all id (keep (is_expired now) (values s.rooms)) s
    ∙ rw (mentions-keep now id s.rooms v.distinct (λ j r e. (v.keyed j r e).0))
        (unless_due now (get id s.rooms))
