-- ===== src/Server/Registry/Laws.antt =====
-- The two maps of the registry, and when an entry goes stale.
use lantern_remote.Common.{
  Bool, false, ◌≡◌, ◌≢◌, refl, ◌⊎◌, inl, inr, [], Option, none, some, arith, Text, ◌==◌,
  Option-cases, if◌then◌else◌, ◌∙◌,
}
use lantern_remote.Dict.{Dict, get, del, get-put, get-del}
use lantern_remote.Server.Registry.{
  DeviceRegistry, register, unregister_socket, get_socket, get_device_id, displaced_by, forget,
  no_devices,
}

-- A registered socket is the current socket of its device, and no device id is empty.
pub record IsCurrent (r : DeviceRegistry) : Type 0 where
  pub held :
      (socket d : Text)
      → get_device_id socket r ≡ some d
      → (get_socket d r ≡ some socket) × (d ≢ [])

-- Every device's socket is registered for that device: nothing is stale.
pub record IsFresh (r : DeviceRegistry) : Type 0 where
  pub fresh : (d socket : Text) → get_socket d r ≡ some socket → get_device_id socket r ≡ some d

abbrev pub is_same : Option Text → Text → Bool
is_same none j = false
is_same (some k) j = k == j

pub get-forget :
    (j : Text) (o : Option Text) (m : Dict Text)
    → get j (forget o m) ≡ (if is_same o j then none else get j m)
get-forget j none m = refl
get-forget j (some k) m = get-del j k m

pub register-IsCurrent :
    (d socket : Text) {r : DeviceRegistry}
    → d ≢ []
    → IsCurrent r
    → IsCurrent (register d socket r).1
unfolding register get_socket get_device_id
register-IsCurrent d socket {r} named v = record {
  held = λ j e h. ground (
    arith,
    v.held j e,
    get-put e d socket r.by_device_id,
    get-put j socket d (forget (displaced_by socket (get d r.by_device_id)) r.by_socket_id),
    get-forget j (displaced_by socket (get d r.by_device_id)) r.by_socket_id,
  );
}

module _ (socket d : Text) {r : DeviceRegistry} (v : IsCurrent r) where
  -- The registry once the current socket of `d` has gone.
  unregister-eq :
      get_device_id socket r ≡ some d
      → (unregister_socket socket r) ≡ (
        some d,
        record { by_device_id = del d r.by_device_id; by_socket_id = del socket r.by_socket_id },
      )
  unfolding unregister_socket get_device_id get_socket
  unregister-eq h = ground (arith, v.held socket d h)

-- A disconnect keeps the invariant.
pub unregister_socket-IsCurrent :
    (socket : Text) {r : DeviceRegistry} → IsCurrent r → IsCurrent (unregister_socket socket r).1
unfolding get_device_id get_socket unregister_socket
unregister_socket-IsCurrent socket {r} v = elim (Option-cases (get_device_id socket r)) [
  | inl n ↦ rw (n, unregister_socket) v
  | inr (d, h) ↦ rw (unregister-eq socket d v h) (record {
    held = λ j e k. ground (
      arith,
      v.held j e,
      v.held socket d,
      h,
      get-del e d r.by_device_id,
      get-del j socket r.by_socket_id,
    );
  })
]

-- A socket that registers under the id that it already has, or for the first time, leaves nothing
-- stale.
pub register-IsFresh :
    (d socket : Text) {r : DeviceRegistry}
    → IsFresh r
    → ((get_device_id socket r ≡ none) ⊎ (get_device_id socket r ≡ some d))
    → IsFresh (register d socket r).1
unfolding register get_socket get_device_id
register-IsFresh d socket {r} v first = record {
  fresh = λ e k h. ground (
    arith,
    v.fresh e k,
    v.fresh d k,
    get-put e d socket r.by_device_id,
    get-put k socket d (forget (displaced_by socket (get d r.by_device_id)) r.by_socket_id),
    get-forget k (displaced_by socket (get d r.by_device_id)) r.by_socket_id,
  );
}

-- When the socket of a device goes, the device has no socket, and every other device keeps its own.
pub get_socket-unregister :
    (socket d e : Text) {r : DeviceRegistry}
    → IsCurrent r
    → get_device_id socket r ≡ some d
    → get_socket e (unregister_socket socket r).1 ≡ (if d == e then none else get_socket e r)
unfolding get_socket
get_socket-unregister socket d e {r} v h =
    rw (unregister-eq socket d v h) (get-del e d r.by_device_id)

-- A socket that registers a second device id leaves the first one behind: after the socket has
-- gone, the registry still answers it for the first device.
pub reregister_stale :
    (socket d e : Text) {r : DeviceRegistry}
    → IsCurrent r
    → get_device_id socket r ≡ some d
    → e ≢ d
    → e ≢ []
    → get_socket d (unregister_socket socket (register e socket r).1).1 ≡ some socket
unfolding get_socket get_device_id register
reregister_stale socket d e {r} v h differ named =
    get_socket-unregister socket e d (register-IsCurrent e socket named v) (
      ground (
        arith,
        get-put socket socket e
            (forget (displaced_by socket (get e r.by_device_id)) r.by_socket_id),
      ))
    ∙ ground (arith, v.held socket d h, get-put d e socket r.by_device_id)

pub no_devices-IsCurrent : IsCurrent no_devices
unfolding get_device_id get
no_devices-IsCurrent = record { held = λ socket d e. absurd (cc) }
