-- ===== src/Server/Handlers/Step/Lifecycle.antt =====
-- The life of a room: which event changes it, and on whose behalf.
use lantern_remote.Server.Handlers.Step.Move.{Move, keeps}
use lantern_remote.Server.Handlers.Step.Moves.{
  register_device-Moves, connection_request-Moves, connection_accepted_by-Moves,
  connection_rejected_by-Moves, disconnect_device-Moves, socket_disconnect-Moves,
}
use lantern_remote.Common.{◌≡◌, refl, ap, Text}
use lantern_remote.Server.Rooms.{get_room}
use lantern_remote.Server.Handlers.{Runtime, SignalingServer}
use lantern_remote.Server.Handlers.Relay.Routing.{
  webrtc_offer-Relays, webrtc_answer-Relays, relay_ice_candidate-Relays,
}
use lantern_remote.Server.Handlers.Step.{
  Event, register_device_event, connection_request_event, connection_accepted_event,
  connection_rejected_event, disconnect_device_event, webrtc_offer_event, webrtc_answer_event,
  ice_candidate_event, disconnect_event, step, IsUnused, Reachable,
}
use lantern_remote.Server.Handlers.Step.Safety.{Reachable-IsSound}

unmoved :
    (socket : Text) (e : Event) (id : Text) {s s' : SignalingServer}
    → s' ≡ s
    → Move socket e s (get_room id s.rooms) (get_room id s'.rooms)
unmoved socket e id same = keeps (ap (λ t. get_room id t.rooms) same)

-- In a running server an event leaves a room as it was, or opens a pending one for its client, or
-- admits a pending one for its host, which accepts it by its id, or closes one for a member. Whoever it is done for is the
-- device that the socket is registered for, or registers just then.
pub step-Move :
    {s : SignalingServer}
    → Reachable s
    → (rt : Runtime) (socket : Text) (e : Event) (id : Text) → IsUnused rt s
    → Move socket e s (get_room id s.rooms) (get_room id (step rt socket e s).rooms)
unfolding step
step-Move reach rt socket (register_device_event raw) id u =
    register_device-Moves socket (register_device_event raw) (Reachable-IsSound reach) id raw refl
step-Move reach rt socket (connection_request_event raw) id u =
    connection_request-Moves socket (connection_request_event raw) (Reachable-IsSound reach) id rt
      raw u
step-Move reach rt socket (connection_accepted_event raw) id u =
    connection_accepted_by-Moves socket (connection_accepted_event raw) (Reachable-IsSound reach) id
      raw refl
step-Move reach rt socket (connection_rejected_event raw) id u =
    connection_rejected_by-Moves socket (connection_rejected_event raw) (Reachable-IsSound reach) id
      raw
step-Move reach rt socket (disconnect_device_event raw) id u =
    disconnect_device-Moves socket (disconnect_device_event raw) (Reachable-IsSound reach) id raw
step-Move {s} reach rt socket (webrtc_offer_event raw) id u =
    unmoved socket (webrtc_offer_event raw) id (webrtc_offer-Relays rt socket raw s).0
step-Move {s} reach rt socket (webrtc_answer_event raw) id u =
    unmoved socket (webrtc_answer_event raw) id (webrtc_answer-Relays rt socket raw s).0
step-Move {s} reach rt socket (ice_candidate_event raw) id u =
    unmoved socket (ice_candidate_event raw) id (relay_ice_candidate-Relays rt socket raw s).0
step-Move reach rt socket disconnect_event id u =
    socket_disconnect-Moves socket disconnect_event (Reachable-IsSound reach) id
