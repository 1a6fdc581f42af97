-- ===== src/Server/Rooms/Preservation.antt =====
-- Every operation on rooms keeps the two maps consistent.
use lantern_remote.Common.{
  ◌≡◌, ◌≢◌, refl, ◌⊎◌, inl, inr, [], ◌∷◌, none, some, arith, Text, ℕ, Option-cases, if◌then◌else◌,
  Bool-cases, keep, ◌==◌, Text-discrete, List,
}
use lantern_remote.Dict.{Dict, get, put, del, get-put, get-del}
use lantern_remote.Server.Rooms.{
  ConnectionRoom, ConnectionRooms, new_room, create_pending, accept, admitted, remove, remove_all,
  expire_pending, is_pending, is_expired, values,
}
use lantern_remote.Server.Rooms.Consistency.{Distinct, IsConsistent}

module _ {ℓ} {V : Type ℓ} where
  pub Distinct-put : (k : Text) (v : V) (m : Dict V) → Distinct m → Distinct (put k v m)
  unfolding get put
  Distinct-put k v [] h = (refl, tt)
  Distinct-put k v ((j, w) ∷ m) h = ground (arith, Distinct-put k v m h.1, get-put j k v m)

  pub Distinct-del : (k : Text) (m : Dict V) → Distinct m → Distinct (del k m)
  unfolding get del
  Distinct-del k [] h = tt
  Distinct-del k ((j, w) ∷ m) h = ground (arith, Distinct-del k m h.1, get-del j k m)

module _ {s : ConnectionRooms} (v : IsConsistent s) where
  -- A new room under an unused id, between two different devices that have no room.
  pub create_pending-IsConsistent :
      (uuid : Text) (now : ℕ) (client host client_socket : Text)
      → uuid ≢ []
      → get uuid s.rooms ≡ none
      → client ≢ host
      → get client s.by_device ≡ none
      → get host s.by_device ≡ none
      → IsConsistent (create_pending uuid now client host client_socket s).1
  unfolding create_pending
  create_pending-IsConsistent uuid now client host client_socket named fresh differ c h = record {
    keyed = λ id r e. ground (arith, get-put id uuid room s.rooms, v.keyed id r);
    indexed = λ id r e. ground (
      arith,
      get-put id uuid room s.rooms,
      v.indexed id r,
      get-put r.client_device_id host uuid (put client uuid s.by_device),
      get-put r.host_device_id host uuid (put client uuid s.by_device),
      get-put r.client_device_id client uuid s.by_device,
      get-put r.host_device_id client uuid s.by_device,
    );
    backed = backed;
    distinct = Distinct-put uuid room s.rooms v.distinct;
  }
    where
      room : ConnectionRoom
      room = new_room uuid now client host client_socket

      backed :
          (d id : Text)
          → get d (put host uuid (put client uuid s.by_device)) ≡ some id
          → (r : ConnectionRoom) × (get id (put uuid room s.rooms) ≡ some r)
            × ((r.client_device_id ≡ d) ⊎ (r.host_device_id ≡ d))
      backed d id e = elim (Text-discrete host d) [
        | yes p ↦ (
          room,
          ground (
            arith,
            get-put d host uuid (put client uuid s.by_device),
            get-put id uuid room s.rooms,
          ),
          inr p,
        )
        | no n ↦ elim (Text-discrete client d) [
          | yes p ↦ (
            room,
            ground (
              arith,
              get-put d host uuid (put client uuid s.by_device),
              get-put d client uuid s.by_device,
              get-put id uuid room s.rooms,
            ),
            inl p,
          )
          | no m ↦
              let old : get d s.by_device ≡ some id = ground (
                arith,
                get-put d host uuid (put client uuid s.by_device),
                get-put d client uuid s.by_device,
              ) in
              let (r, there, side) = v.backed d id old in
              (r, ground (arith, get-put id uuid room s.rooms), side)
        ]
      ]

  -- The entries of the device index that survive a removal are those of other devices.
  module _ (id : Text) (r : ConnectionRoom) (there : get id s.rooms ≡ some r) where
    index_after :
        (d : Text)
        → get d (del r.host_device_id (del r.client_device_id s.by_device)) ≡ (
            if r.host_device_id == d
            then none
            else if r.client_device_id == d
            then none
            else get d s.by_device)
    index_after d = rw (
      get-del d r.host_device_id (del r.client_device_id s.by_device),
      get-del d r.client_device_id s.by_device,
    )

    removed-IsConsistent : IsConsistent (record {
      rooms = del id s.rooms;
      by_device = del r.host_device_id (del r.client_device_id s.by_device);
    })
    removed-IsConsistent = record {
      keyed = λ j q e. ground (arith, get-del j id s.rooms, v.keyed j q);
      indexed = λ j q e. ground (
        arith,
        get-del j id s.rooms,
        v.indexed j q,
        v.indexed id r there,
        index_after q.client_device_id,
        index_after q.host_device_id,
      );
      backed = backed;
      distinct = Distinct-del id s.rooms v.distinct;
    }
      where
        backed :
            (d j : Text)
            → get d (del r.host_device_id (del r.client_device_id s.by_device)) ≡ some j
            → (q : ConnectionRoom) × (get j (del id s.rooms) ≡ some q)
              × ((q.client_device_id ≡ d) ⊎ (q.host_device_id ≡ d))
        backed d j e =
            let old : (get d s.by_device ≡ some j)
                × (r.client_device_id ≢ d)
                × (r.host_device_id ≢ d) =
              ground (arith, index_after d) in
            let (q, stored, side) = v.backed d j old.0 in
            (q, ground (arith, get-del j id s.rooms, old), side)

  pub remove-IsConsistent : (id : Text) → IsConsistent (remove id s).1
  unfolding remove
  remove-IsConsistent id = elim (Option-cases (get id s.rooms)) [
    | inl gone ↦ rw gone v
    | inr (r, there) ↦ rw there (removed-IsConsistent id r there)
  ]

  accepted-IsConsistent :
      (id host_socket : Text) (r : ConnectionRoom)
      → get id s.rooms ≡ some r
      → IsConsistent (record s { rooms = put id (admitted r host_socket) s.rooms })
  unfolding admitted
  accepted-IsConsistent id host_socket r there = record {
    keyed = λ j q e.
        ground
          (arith, get-put j id (admitted r host_socket) s.rooms, v.keyed j q, v.keyed id r there);
    indexed = λ j q e.
        ground (
          arith,
          get-put j id (admitted r host_socket) s.rooms,
          v.indexed j q,
          v.indexed id r there,
        );
    backed = λ d j e. backed d j (v.backed d j e);
    distinct = Distinct-put id (admitted r host_socket) s.rooms v.distinct;
  }
    where
      backed :
          (d j : Text)
          → ((q : ConnectionRoom) × (get j s.rooms ≡ some q)
              × ((q.client_device_id ≡ d) ⊎ (q.host_device_id ≡ d)))
          → (q : ConnectionRoom) × (get j (put id (admitted r host_socket) s.rooms) ≡ some q)
            × ((q.client_device_id ≡ d) ⊎ (q.host_device_id ≡ d))
      backed d j (q, stored, side) = elim (Text-discrete id j) [
        | yes p ↦ (
          admitted r host_socket,
          ground (arith, get-put j id (admitted r host_socket) s.rooms),
          ground arith,
        )
        | no n ↦ (q, ground (arith, get-put j id (admitted r host_socket) s.rooms), side)
      ]

  pub accept-IsConsistent : (id host_socket : Text) → IsConsistent (accept id host_socket s).1
  unfolding accept
  accept-IsConsistent id host_socket = elim (Option-cases (get id s.rooms)) [
    | inl gone ↦ rw gone v
    | inr (r, there) ↦ rw there (elim (Bool-cases (is_pending r.status)) [
      | inl p ↦ rw p (accepted-IsConsistent id host_socket r there)
      | inr n ↦ rw n v
    ])
  ]

pub remove_all-IsConsistent :
    (rooms : List ConnectionRoom) {s : ConnectionRooms}
    → IsConsistent s
    → IsConsistent (remove_all rooms s)
unfolding remove_all
remove_all-IsConsistent [] v = v
remove_all-IsConsistent (r ∷ rest) v = remove_all-IsConsistent rest (remove-IsConsistent v r.id)

pub expire_pending-IsConsistent :
    (now : ℕ) {s : ConnectionRooms} → IsConsistent s → IsConsistent (expire_pending now s).1
unfolding expire_pending
expire_pending-IsConsistent now {s} v =
    remove_all-IsConsistent (keep (is_expired now) (values s.rooms)) v
