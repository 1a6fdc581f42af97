-- ===== src/Server/Rooms.antt =====
-- server/rooms/connectionRooms.ts. A room is changed in place by `accept`; here the map holds the
-- new record. `randomUUID` and `Date.now` are arguments.
pub mod Consistency
pub mod Preservation
pub mod Expiry
use lantern_remote.Common.{
  ℕ, ◌-◌, Bool, true, false, not, ◌&&◌, List, [], ◌∷◌, Option, none, some, Text, leb, keep, present,
  map, ◌>>=◌, if◌then◌else◌,
}
use lantern_remote.Dict.{Dict, get, put, del}
use lantern_remote.Shared.Signaling.{pending_room_ttl_ms}

pub data RoomStatus : Type 0 where
  pending accepted : RoomStatus

pub record ConnectionRoom : Type 0 where
  pub id : Text
  pub client_device_id : Text
  pub host_device_id : Text
  pub client_socket_id : Text
  pub host_socket_id : Option Text
  pub status : RoomStatus
  pub created_at : ℕ

pub record ConnectionRooms : Type 0 where
  pub rooms : Dict ConnectionRoom
  pub by_device : Dict Text

abbrev pub no_rooms : ConnectionRooms
no_rooms = record { rooms = []; by_device = [] }

abbrev pub is_pending : RoomStatus → Bool
is_pending pending = true
is_pending accepted = false

unfoldable pub new_room :
    (uuid : Text) (now : ℕ) (client host client_socket : Text) → ConnectionRoom
new_room uuid now client host client_socket = record {
  id = uuid;
  client_device_id = client;
  host_device_id = host;
  client_socket_id = client_socket;
  host_socket_id = none;
  status = pending;
  created_at = now;
}

unfoldable pub create_pending :
    (uuid : Text) (now : ℕ) (client host client_socket : Text)
    → ConnectionRooms
    → ConnectionRoom × ConnectionRooms
unfolding new_room
create_pending uuid now client host client_socket s =
    let room = new_room uuid now client host client_socket in
    (
      room,
      record {
        rooms = put room.id room s.rooms;
        by_device = put host room.id (put client room.id s.by_device);
      },
    )

unfoldable pub get_room : Text → ConnectionRooms → Option ConnectionRoom
get_room room_id s = get room_id s.rooms

unfoldable pub get_by_device : Text → ConnectionRooms → Option ConnectionRoom
get_by_device device_id s = do id ← present (get device_id s.by_device); get id s.rooms

-- The room after a successful `accept`.
unfoldable pub admitted : ConnectionRoom → Text → ConnectionRoom
admitted room host_socket = record room { status = accepted; host_socket_id = some host_socket }

abbrev accept_in :
    Text → Text → ConnectionRooms → Option ConnectionRoom → Option ConnectionRoom × ConnectionRooms
unfolding admitted
accept_in room_id host_socket s none = (none, s)
accept_in room_id host_socket s (some room) = if not (is_pending room.status) then (none, s) else (
  some (admitted room host_socket),
  record s { rooms = put room_id (admitted room host_socket) s.rooms },
)

unfoldable pub accept : Text → Text → ConnectionRooms → Option ConnectionRoom × ConnectionRooms
unfolding accept_in
accept room_id host_socket s = accept_in room_id host_socket s (get room_id s.rooms)

abbrev remove_in :
    Text → ConnectionRooms → Option ConnectionRoom → Option ConnectionRoom × ConnectionRooms
remove_in room_id s none = (none, s)
remove_in room_id s (some room) = (
  some room,
  record {
    rooms = del room_id s.rooms;
    by_device = del room.host_device_id (del room.client_device_id s.by_device);
  },
)

unfoldable pub remove : Text → ConnectionRooms → Option ConnectionRoom × ConnectionRooms
remove room_id s = remove_in room_id s (get room_id s.rooms)

-- Pending for too long. A clock that went back gives a negative age in the source, 0 here.
abbrev pub is_expired : ℕ → ConnectionRoom → Bool
is_expired now room = is_pending room.status && leb pending_room_ttl_ms (now - room.created_at)

abbrev pub values : Dict ConnectionRoom → List ConnectionRoom
values m = map (λ e. e.1) m

-- `for (const room of expired) this.remove(room.id)`
unfoldable pub remove_all : List ConnectionRoom → ConnectionRooms → ConnectionRooms
remove_all [] s = s
remove_all (room ∷ rest) s = remove_all rest (remove room.id s).1

unfoldable pub expire_pending : ℕ → ConnectionRooms → List ConnectionRoom × ConnectionRooms
expire_pending now s =
    let expired = keep (is_expired now) (values s.rooms) in (expired, remove_all expired s)
