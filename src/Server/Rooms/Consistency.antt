-- ===== src/Server/Rooms/Consistency.antt =====
-- The invariant that ties the two maps of the rooms together.
use lantern_remote.Common.{
  ◌≡◌, ◌≢◌, refl, ◌⊎◌, [], ◌∷◌, none, some, arith, Text, Option-cases, inl, inr,
}
use lantern_remote.Dict.{Dict, get}
use lantern_remote.Server.Rooms.{ConnectionRoom, ConnectionRooms, no_rooms, get_by_device, get_room}

-- No key stands twice in a map.
abbrev pub Distinct {ℓ} : {V : Type ℓ} → Dict V → Type ℓ
Distinct [] = Unit
Distinct ((k, v) ∷ m) = (get k m ≡ none) × Distinct m

pub record IsConsistent (s : ConnectionRooms) : Type 0 where
  -- A room is stored under its own id, which is not empty.
  pub keyed : (id : Text) (r : ConnectionRoom) → get id s.rooms ≡ some r → (r.id ≡ id) × (id ≢ [])
  -- Both members of a room are indexed to it, and they differ.
  pub indexed :
      (id : Text) (r : ConnectionRoom)
      → get id s.rooms ≡ some r
      → (get r.client_device_id s.by_device ≡ some id)
        × (get r.host_device_id s.by_device ≡ some id)
        × (r.client_device_id ≢ r.host_device_id)
  -- A device is indexed to a room of which it is a member.
  pub backed :
      (d id : Text)
      → get d s.by_device ≡ some id
      → (r : ConnectionRoom) × (get id s.rooms ≡ some r)
        × ((r.client_device_id ≡ d) ⊎ (r.host_device_id ≡ d))
  pub distinct : Distinct s.rooms

module _ {s : ConnectionRooms} (v : IsConsistent s) where
  -- The lookup by device answers with the room the index names.
  pub get_by_device-eq :
      (d id : Text) (r : ConnectionRoom)
      → get d s.by_device ≡ some id
      → get id s.rooms ≡ some r
      → get_by_device d s ≡ some r
  unfolding get_by_device
  get_by_device-eq d [] r e h = absurd ((v.keyed [] r h).1 refl)
  get_by_device-eq d (c ∷ id) r e h = ground arith

  -- A device without a room is not in the index.
  pub get-by_device-eq_none : (d : Text) → get_by_device d s ≡ none → get d s.by_device ≡ none
  get-by_device-eq_none d e = elim (Option-cases (get d s.by_device)) [
    | inl n ↦ n
    | inr (id, h) ↦
        let (r, there, _) = v.backed d id h in
        absurd (ground (arith, get_by_device-eq d id r h there))
  ]

  -- The room that a device is looked up in is stored, and has the device as a member.
  pub get_by_device_sound :
      (d : Text) (r : ConnectionRoom)
      → get_by_device d s ≡ some r
      → (get_room r.id s ≡ some r) × ((r.client_device_id ≡ d) ⊎ (r.host_device_id ≡ d))
  unfolding get_by_device get_room
  get_by_device_sound d r e = elim (Option-cases (get d s.by_device)) [
    | inl n ↦ ground arith
    | inr (id, h) ↦
        let (q, there, side) = v.backed d id h in
        ground (arith, get_by_device-eq d id q h there, v.keyed id q there)
  ]

pub no_rooms-IsConsistent : IsConsistent no_rooms
unfolding get
no_rooms-IsConsistent = record {
  keyed = λ id r e. absurd (cc);
  indexed = λ id r e. absurd (cc);
  backed = λ d id e. absurd (cc);
  distinct = tt;
}
