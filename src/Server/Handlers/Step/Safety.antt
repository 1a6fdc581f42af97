-- ===== src/Server/Handlers/Step/Safety.antt =====
-- Every reachable state is sound, and what that means for devices and sockets.
use lantern_remote.Common.{◌≡◌, ◌≢◌, ◌⊎◌, some, arith, Text}
use lantern_remote.Server.Rooms.{ConnectionRoom, get_room}
use lantern_remote.Server.Rooms.Consistency.{no_rooms-IsConsistent}
use lantern_remote.Server.Rooms.Preservation.{expire_pending-IsConsistent}
use lantern_remote.Server.Registry.{get_socket, get_device_id}
use lantern_remote.Server.Registry.Laws.{no_devices-IsCurrent}
use lantern_remote.Server.Handlers.{Runtime, SignalingServer}
use lantern_remote.Server.Handlers.Relay.Routing.{
  webrtc_offer-Relays, webrtc_answer-Relays, relay_ice_candidate-Relays,
}
use lantern_remote.Server.Handlers.Step.{
  Event, register_device_event, connection_request_event, connection_accepted_event,
  connection_rejected_event, disconnect_device_event, webrtc_offer_event, webrtc_answer_event,
  ice_candidate_event, disconnect_event, step, sweep, IsUnused, Reachable, start, event, swept,
}
use lantern_remote.Server.Handlers.Step.Invariant.{
  IsSound, register_device-IsSound, connection_request-IsSound, connection_accepted_by-IsSound,
  connection_rejected_by-IsSound, disconnect_device-IsSound, socket_disconnect-IsSound,
}

pub step-IsSound :
    (rt : Runtime) (socket : Text) (e : Event) {s : SignalingServer}
    → IsUnused rt s
    → IsSound s
    → IsSound (step rt socket e s)
unfolding step
step-IsSound rt socket (register_device_event raw) u v = register_device-IsSound v socket raw
step-IsSound rt socket (connection_request_event raw) u v =
    connection_request-IsSound v rt socket raw u
step-IsSound rt socket (connection_accepted_event raw) u v =
    connection_accepted_by-IsSound v socket raw
step-IsSound rt socket (connection_rejected_event raw) u v =
    connection_rejected_by-IsSound v socket raw
step-IsSound rt socket (disconnect_device_event raw) u v = disconnect_device-IsSound v socket raw
step-IsSound rt socket (webrtc_offer_event raw) {s} u v =
    rw ((webrtc_offer-Relays rt socket raw s).0) v
step-IsSound rt socket (webrtc_answer_event raw) {s} u v =
    rw ((webrtc_answer-Relays rt socket raw s).0) v
step-IsSound rt socket (ice_candidate_event raw) {s} u v =
    rw ((relay_ice_candidate-Relays rt socket raw s).0) v
step-IsSound rt socket disconnect_event u v = socket_disconnect-IsSound socket v

-- In every state of a running server, whatever the order of events and sweeps, the two maps of the
-- rooms agree, and every registered socket is the current socket of its device.
pub Reachable-IsSound : {s : SignalingServer} → Reachable s → IsSound s
unfolding sweep
Reachable-IsSound start = record {
  current = no_devices-IsCurrent;
  consistent = no_rooms-IsConsistent;
}
Reachable-IsSound (event rt socket e u r) = step-IsSound rt socket e u (Reachable-IsSound r)
Reachable-IsSound (swept rt r) =
    let v = Reachable-IsSound r in
    record { current = v.current; consistent = expire_pending-IsConsistent rt.now v.consistent }

abbrev pub IsMember : Text → ConnectionRoom → Type 0
IsMember d r = (r.client_device_id ≡ d) ⊎ (r.host_device_id ≡ d)

-- In every state of a running server a device is a member of one room at most, and never its
-- own peer.
pub one_session :
    {s : SignalingServer}
    → Reachable s
    → (d i j : Text) (q r : ConnectionRoom) → get_room i s.rooms ≡ some q
    → get_room j s.rooms ≡ some r
    → IsMember d q
    → IsMember d r
    → (i ≡ j) × (q ≡ r) × (q.client_device_id ≢ q.host_device_id)
unfolding get_room
one_session {s} reach d i j q r e f m n =
    let v = (Reachable-IsSound reach).consistent in ground (arith, v.indexed i q e, v.indexed j r f)

-- In every state of a running server a device is registered from one socket at most.
pub one_socket :
    {s : SignalingServer}
    → Reachable s
    → (a b d : Text) → get_device_id a s.registry ≡ some d
    → get_device_id b s.registry ≡ some d
    → (a ≡ b) × (get_socket d s.registry ≡ some a)
one_socket {s} reach a b d e f =
    let v = (Reachable-IsSound reach).current in ground (arith, v.held a d e, v.held b d f)
