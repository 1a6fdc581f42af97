-- ===== src/Server/Registry/View.antt =====
-- What the registry answers, whatever the order in which its two maps hold their entries.
use mathlib.Core.Quot
use mathlib.Core.Quot.{Quot, Quot-set}
use lantern_remote.Common.{
  ◌≡◌, ◌≢◌, refl, Option, none, some, arith, Text, ◌==◌, if◌then◌else◌, present, Option-cases, inl,
  inr, [],
}
use lantern_remote.Dict.{get, get-put, get-del}
use lantern_remote.Server.Registry.{
  DeviceRegistry, register, unregister_socket, get_socket, get_device_id, displaced_by, forget,
  is_current,
}
use lantern_remote.Server.Registry.Laws.{get-forget, is_same}

-- The two registries answer alike.
abbrev pub AnswerAlike : DeviceRegistry → DeviceRegistry → Type 0
AnswerAlike r s =
    ((d : Text) → get_socket d r ≡ get_socket d s)
    × ((socket : Text) → get_device_id socket r ≡ get_device_id socket s)

-- A registry, up to what it answers.
abbrev pub View : Type 0
View = Quot AnswerAlike

-- Once a device has been registered, each answer by the answers before.
pub get_socket-register :
    (d socket e : Text) (r : DeviceRegistry)
    → get_socket e (register d socket r).1 ≡ (if d == e then some socket else get_socket e r)
unfolding register get_socket
get_socket-register d socket e r = get-put e d socket r.by_device_id

pub get_device_id-register :
    (d socket k : Text) (r : DeviceRegistry)
    → get_device_id k (register d socket r).1 ≡ (
        if socket == k
        then some d
        else (if is_same (displaced_by socket (get_socket d r)) k then none else get_device_id k r))
unfolding register get_socket get_device_id
get_device_id-register d socket k r = ground (
  arith,
  get-put k socket d (forget (displaced_by socket (get d r.by_device_id)) r.by_socket_id),
  get-forget k (displaced_by socket (get d r.by_device_id)) r.by_socket_id,
)

-- Registering acts on what the registry answers.
register-AnswerAlike :
    (d socket : Text) (r s : DeviceRegistry)
    → AnswerAlike r s
    → AnswerAlike (register d socket r).1 (register d socket s).1
register-AnswerAlike d socket r s (h, k) = (
  (λ e. rw (get_socket-register d socket e r, get_socket-register d socket e s, h e) refl),
  (λ j.
      rw (get_device_id-register d socket j r, get_device_id-register d socket j s, h d, k j) refl),
)

abbrev pub view : DeviceRegistry → View
view = Quot.mk

-- `register` and `unregisterSocket`, on what a registry answers.
pub registered_in : (d socket : Text) → View → View
registered_in d socket =
    Quot.lift Quot-set (λ r. view (register d socket r).1)
      λ r s h. Quot.sound (register-AnswerAlike d socket r s h)

unfoldable pub socket_in : Text → View → Option Text
socket_in d = Quot.lift (hlevel) (get_socket d) λ r s h. h.0 d

-- Once a socket has been unregistered, each answer by the answers before.
pub get_socket-unregister_socket :
    (socket e : Text) (r : DeviceRegistry)
    → get_socket e (unregister_socket socket r).1 ≡ elim (present (get_device_id socket r)) [
      | none ↦ get_socket e r
      | some d ↦
          if is_current (get_socket d r) socket
          then (if d == e then none else get_socket e r)
          else get_socket e r
    ]
unfolding unregister_socket get_socket get_device_id
get_socket-unregister_socket socket e r =
    elim (Option-cases (present (get socket r.by_socket_id))) [
      | inl n ↦ rw n refl
      | inr (d, h) ↦ rw h (ground (arith, get-del e d r.by_device_id))
    ]

pub get_device_id-unregister_socket :
    (socket k : Text) (r : DeviceRegistry)
    → get_device_id k (unregister_socket socket r).1 ≡ elim (present (get_device_id socket r)) [
      | none ↦ get_device_id k r
      | some d ↦ if socket == k then none else get_device_id k r
    ]
unfolding unregister_socket get_socket get_device_id
get_device_id-unregister_socket socket k r =
    elim (Option-cases (present (get socket r.by_socket_id))) [
      | inl n ↦ rw n refl
      | inr (d, h) ↦ rw h (get-del k socket r.by_socket_id)
    ]

unregister-AnswerAlike :
    (socket : Text) (r s : DeviceRegistry)
    → AnswerAlike r s
    → AnswerAlike (unregister_socket socket r).1 (unregister_socket socket s).1
unregister-AnswerAlike socket r s (h, k) = elim (Option-cases (present (get_device_id socket s))) [
  | inl n ↦ (
    (λ e.
        rw
          (
            get_socket-unregister_socket socket e r,
            get_socket-unregister_socket socket e s,
            k socket,
            n,
          )
          (h e)),
    (λ j.
        rw
          (
            get_device_id-unregister_socket socket j r,
            get_device_id-unregister_socket socket j s,
            k socket,
            n,
          )
          (k j)),
  )
  | inr (d, g) ↦ (
    (λ e.
        rw
          (
            get_socket-unregister_socket socket e r,
            get_socket-unregister_socket socket e s,
            k socket,
            g,
            h d,
            h e,
          )
          refl),
    (λ j.
        rw
          (
            get_device_id-unregister_socket socket j r,
            get_device_id-unregister_socket socket j s,
            k socket,
            g,
            k j,
          )
          refl),
  )
]

pub unregistered_in : (socket : Text) → View → View
unregistered_in socket =
    Quot.lift Quot-set (λ r. view (unregister_socket socket r).1)
      λ r s h. Quot.sound (unregister-AnswerAlike socket r s h)

unfoldable pub device_in : Text → View → Option Text
device_in socket = Quot.lift (hlevel) (get_device_id socket) λ r s h. h.1 socket

-- A registration and the disconnection of its socket leave the registry answering as it did before.
-- The device had no socket and the socket no device, and the device id is not empty.
pub unregister-register :
    (d a : Text) (v : View)
    → d ≢ []
    → socket_in d v ≡ none
    → device_in a v ≡ none
    → unregistered_in a (registered_in d a v) ≡ v
unfolding registered_in unregistered_in socket_in device_in
unregister-register d a =
    Quot.ind (λ v. hlevel Quot-set)
      λ r named offline unknown. Quot.sound (
        (λ e. ground (
          arith,
          get_socket-unregister_socket a e (register d a r).1,
          get_device_id-register d a a r,
          get_socket-register d a d r,
          get_socket-register d a e r,
        )),
        (λ k. ground (
          arith,
          get_device_id-unregister_socket a k (register d a r).1,
          get_device_id-register d a a r,
          get_device_id-register d a k r,
        )),
      )
