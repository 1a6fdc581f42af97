-- ===== src/Server/Registry/Refine.antt =====
-- server/socket/deviceRegistry.ts against one map from devices to their latest sockets.
use lantern_remote.Common.{
  ◌≡◌, ◌≢◌, refl, Bool, List, [], ◌∷◌, Option, none, some, arith, Text, ◌==◌, if◌then◌else◌,
}
use lantern_remote.Dict.{get}
use lantern_remote.Server.Registry.{
  DeviceRegistry, register, unregister_socket, get_socket, get_device_id, no_devices,
}
use lantern_remote.Server.Registry.Laws.{is_same}
use lantern_remote.Server.Registry.View.{
  get_socket-register, get_device_id-register, get_socket-unregister_socket,
  get_device_id-unregister_socket,
}

-- A socket registers under the device id that it has, or disconnects.
pub data Visit : Type 0 where
  registers leaves : (socket : Text) → Visit

-- The latest socket that has registered the device, unless it has left since.
abbrev pub latest : (owner : Text → Text) (device_id : Text) → List Visit → Option Text
latest owner d [] = none
latest owner d (registers socket ∷ past) =
    if owner socket == d then some socket else latest owner d past
latest owner d (leaves socket ∷ past) =
    let before = latest owner d past in if is_same before socket then none else before

module _ (owner : Text → Text) (named : (socket : Text) → owner socket ≢ []) where
  unfoldable pub after : List Visit → DeviceRegistry
  after [] = no_devices
  after (registers socket ∷ past) = (register (owner socket) socket (after past)).1
  after (leaves socket ∷ past) = (unregister_socket socket (after past)).1

  -- The socket holds its device.
  abbrev pub holds : Text → List Visit → Bool
  holds socket past = is_same (latest owner (owner socket) past) socket

  latest-owner :
      (d socket : Text) (past : List Visit) → latest owner d past ≡ some socket → owner socket ≡ d
  latest-owner d socket [] h = absurd (cc)
  latest-owner d socket (registers s ∷ past) h = ground (arith, latest-owner d socket past)
  latest-owner d socket (leaves s ∷ past) h = ground (arith, latest-owner d socket past)

  abbrev Agrees : DeviceRegistry → List Visit → Type 0
  Agrees r past =
      ((d : Text) → get_socket d r ≡ latest owner d past)
      × ((socket : Text)
          → get_device_id socket r ≡ (if holds socket past then some (owner socket) else none))

  agrees : (past : List Visit) → Agrees (after past) past
  unfolding after
  agrees [] = unfold get_socket get_device_id get in (λ d. refl, λ s. refl)
  agrees (registers s ∷ past) =
      let (devices, sockets) = agrees past in
      (
        (λ d. ground (arith, get_socket-register (owner s) s d (after past), devices d)),
        (λ k. ground (
          arith,
          get_device_id-register (owner s) s k (after past),
          devices (owner s),
          sockets k,
          latest-owner (owner s) k past,
        )),
      )
  agrees (leaves s ∷ past) =
      let (devices, sockets) = agrees past in
      (
        (λ d. ground (
          arith,
          get_socket-unregister_socket s d (after past),
          devices d,
          devices (owner s),
          sockets s,
          latest-owner d s past,
          named s,
        )),
        (λ k. ground (
          arith,
          get_device_id-unregister_socket s k (after past),
          sockets s,
          sockets k,
          named s,
          latest-owner (owner k) s past,
        )),
      )

  -- Where each socket registers under one device id only, which is not empty, the two maps of the
  -- registry do the work of one, from each device to the latest socket that has registered it and
  -- has not left. Whatever has happened, a lookup answers by it, and so does the lookup of a socket;
  -- a registration gives the socket that is displaced, which is never the one that registers; and a
  -- disconnection gives the device of the socket if that still holds it.
  pub registry_refines :
      (past : List Visit) (socket d : Text)
      → let r = after past in
        (get_socket d r ≡ latest owner d past)
        × (get_device_id socket r ≡ (if holds socket past then some (owner socket) else none))
        × ((register (owner socket) socket r).0
            ≡ (if holds socket past then none else latest owner (owner socket) past))
        × ((unregister_socket socket r).0
            ≡ (if holds socket past then some (owner socket) else none))
  unfolding register unregister_socket get_socket get_device_id
  registry_refines past socket d =
      let (devices, sockets) = agrees past in
      (
        devices d,
        sockets socket,
        ground (arith, devices (owner socket)),
        ground (arith, sockets socket, named socket),
      )
