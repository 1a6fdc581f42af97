-- ===== src/Server/Handlers/Step/Named.antt =====
-- The ids under which sockets are registered, in every state of the server.
use lantern_remote.Common.{◌≡◌, none, some, arith, Text, Option, present}
use lantern_remote.Dict.{get, get-put, get-del}
use lantern_remote.Value.{Value}
use lantern_remote.Shared.DeviceId.{parse_device_id}
use lantern_remote.Shared.Signaling
use lantern_remote.Shared.Signaling.{parse_register_device_payload}
use lantern_remote.Shared.Signaling.Accepts.{parse_register_self}
use lantern_remote.Server.Registry.{
  DeviceRegistry, register, unregister_socket, unregister_in, get_device_id, displaced_by, forget,
  get_socket,
}
use lantern_remote.Server.Registry.Laws.{get-forget}
use lantern_remote.Server.Rooms.{get_by_device, ConnectionRoom}
use lantern_remote.Server.Handlers.{
  SignalingServer, Runtime, settle, ConnectionRoom, ended_by, end_room,
}
use lantern_remote.Server.Handlers.Ensures.{or_refuse-Ensures}
use lantern_remote.Server.Handlers.Session.{
  registered, socket_disconnect, register_device, connection_request, connection_accepted_by,
  connection_rejected_by, disconnect_device,
}
use lantern_remote.Server.Handlers.Relay.{webrtc_offer, webrtc_answer, relay_ice_candidate}
use lantern_remote.Server.Handlers.Step.{
  sweep, step, Event, register_device_event, disconnect_event, Reachable, start, event, swept,
}

-- Every registered id parses to itself.
pub record IsNamed (r : DeviceRegistry) : Type 0 where
  pub named : (socket d : Text) → get_device_id socket r ≡ some d → parse_device_id d ≡ some d

register-IsNamed :
    (d socket : Text) {r : DeviceRegistry}
    → parse_device_id d ≡ some d
    → IsNamed r
    → IsNamed (register d socket r).1
unfolding register get_device_id
register-IsNamed d socket {r} h v = record {
  named = λ j e k. ground (
    arith,
    v.named j e,
    get-put j socket d (forget (displaced_by socket (get d r.by_device_id)) r.by_socket_id),
    get-forget j (displaced_by socket (get d r.by_device_id)) r.by_socket_id,
  );
}

unregister_in-IsNamed :
    (socket : Text) {r : DeviceRegistry} (o : Option Text)
    → IsNamed r
    → IsNamed (unregister_in socket r o).1
unfolding get_device_id
unregister_in-IsNamed socket none v = v
unregister_in-IsNamed socket {r} (some d) v = record {
  named = λ j e k. ground (arith, v.named j e, get-del j socket r.by_socket_id);
}

end_room-IsNamed :
    (s : SignalingServer) (d : Text) (o : Option (Text × ConnectionRoom))
    → IsNamed s.registry
    → IsNamed (end_room s d o).0.registry
end_room-IsNamed s d none v = v
end_room-IsNamed s d (some (previous, room)) v = v

registered-IsNamed :
    (socket d : Text) (s : SignalingServer)
    → parse_device_id d ≡ some d
    → IsNamed s.registry
    → IsNamed (settle s (registered socket d s)).server.registry
registered-IsNamed socket d s h v =
    register-IsNamed d socket h
      (end_room-IsNamed s d (ended_by socket (get_socket d s.registry) (get_by_device d s.rooms)) v)

register_device-IsNamed :
    (socket : Text) (raw : Value) (s : SignalingServer)
    → IsNamed s.registry
    → IsNamed (register_device socket raw s).server.registry
unfolding register_device
register_device-IsNamed socket raw s v =
    or_refuse-Ensures (λ o. IsNamed o.server.registry) s (λ e. v)
      (parse_register_device_payload raw) Signaling.invalid_id (λ d. registered socket d s)
      (λ d e. registered-IsNamed socket d s (parse_register_self raw d e) v)

socket_disconnect-IsNamed :
    (socket : Text) (s : SignalingServer)
    → IsNamed s.registry
    → IsNamed (socket_disconnect socket s).0.registry
unfolding socket_disconnect unregister_socket
socket_disconnect-IsNamed socket s v =
    let w = unregister_in-IsNamed socket (present (get socket s.registry.by_socket_id)) v in
    record { named = λ j d h. ground (arith, w.named j d) }

-- An event of a socket keeps it: but for the two that change it, all leave the registry alone.
step-IsNamed :
    (rt : Runtime) (socket : Text) (e : Event) (s : SignalingServer)
    → IsNamed s.registry
    → IsNamed (step rt socket e s).registry
unfolding step connection_request connection_accepted_by connection_rejected_by disconnect_device
    webrtc_offer webrtc_answer relay_ice_candidate
step-IsNamed rt socket (register_device_event raw) s v = register_device-IsNamed socket raw s v
step-IsNamed rt socket disconnect_event s v = socket_disconnect-IsNamed socket s v
step-IsNamed rt socket _ s v = record { named = λ j d h. ground (arith, v.named j d) }

pub Reachable-IsNamed : {s : SignalingServer} → Reachable s → IsNamed s.registry
unfolding sweep get_device_id get
Reachable-IsNamed start = record { named = λ socket d h. absurd (cc) }
Reachable-IsNamed (event {s} rt socket e u r) = step-IsNamed rt socket e s (Reachable-IsNamed r)
Reachable-IsNamed (swept rt r) = record { named = (Reachable-IsNamed r).named }
