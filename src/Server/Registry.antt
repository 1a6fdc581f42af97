-- ===== src/Server/Registry.antt =====
-- server/socket/deviceRegistry.ts. A socket is named by its id; whether a socket is connected is
-- known to socket.io alone, and is the argument `connected`.
pub mod Laws
pub mod View
pub mod Refine
use lantern_remote.Common.{
  Bool, true, false, not, ◌&&◌, [], ◌∷◌, Option, none, some, Text, ◌==◌, present, if◌then◌else◌,
}
use lantern_remote.Dict.{Dict, get, put, del}

pub record DeviceRegistry : Type 0 where
  pub by_device_id : Dict Text
  pub by_socket_id : Dict Text

abbrev pub no_devices : DeviceRegistry
no_devices = record { by_device_id = []; by_socket_id = [] }

-- `previous && previous.id !== socket.id`
abbrev pub displaced_by : Text → Option Text → Option Text
displaced_by socket none = none
displaced_by socket (some previous) = if previous == socket then none else some previous

abbrev pub forget : Option Text → Dict Text → Dict Text
forget none m = m
forget (some socket) m = del socket m

unfoldable pub register : (device_id socket : Text) → DeviceRegistry → Option Text × DeviceRegistry
register device_id socket r =
    let displaced = displaced_by socket (get device_id r.by_device_id) in
    (
      displaced,
      record {
        by_device_id = put device_id socket r.by_device_id;
        by_socket_id = put socket device_id (forget displaced r.by_socket_id);
      },
    )

-- `current && current.id === socketId`
abbrev pub is_current : Option Text → Text → Bool
is_current none socket = false
is_current (some current) socket = current == socket

abbrev pub unregister_in : Text → DeviceRegistry → Option Text → Option Text × DeviceRegistry
unregister_in socket r none = (none, r)
unregister_in socket r (some device_id) = (
  some device_id,
  record {
    by_device_id =
        if is_current (get device_id r.by_device_id) socket
        then del device_id r.by_device_id
        else r.by_device_id;
    by_socket_id = del socket r.by_socket_id;
  },
)

unfoldable pub unregister_socket : Text → DeviceRegistry → Option Text × DeviceRegistry
unregister_socket socket r = unregister_in socket r (present (get socket r.by_socket_id))

unfoldable pub get_socket : Text → DeviceRegistry → Option Text
get_socket device_id r = get device_id r.by_device_id

unfoldable pub get_device_id : Text → DeviceRegistry → Option Text
get_device_id socket r = get socket r.by_socket_id

abbrev connected_socket : (Text → Bool) → Option Text → Bool
connected_socket connected none = false
connected_socket connected (some socket) = connected socket

pub is_online : (connected : Text → Bool) → Text → DeviceRegistry → Bool
is_online connected device_id r = connected_socket connected (get device_id r.by_device_id)
