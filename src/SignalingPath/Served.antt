-- ===== src/SignalingPath/Served.antt =====
-- A running server emits only what the clients read.
use lantern_remote.Server.Handlers.Relay.Routing.{
  Relays, webrtc_offer-Relays, webrtc_answer-Relays, relay_ice_candidate-Relays, RoutedSession,
  RoutedCandidate,
}
use lantern_remote.Common.{◌≡◌, [], ◌∷◌, some, arith, Text, All, inl, inr, subst, sym}
use lantern_remote.Value.{Value}
use lantern_remote.Shared.Signaling
use lantern_remote.Shared.Signaling.{
  SignalingErrorCode, parse_register_device_payload, parse_connection_request_payload,
  parse_room_action_payload, parse_rejection_payload, parse_ice_candidate_payload, SdpType,
  WebRtcSessionPayload,
}
use lantern_remote.Server.Rooms.{ConnectionRoom}
use lantern_remote.Server.Handlers.{
  Runtime, SignalingServer, Message, webrtc_session, ice_candidate, emit, Outcome,
}
use lantern_remote.Server.Handlers.Bodies.{body}
use lantern_remote.Server.Handlers.Session.{socket_disconnect}
use lantern_remote.Server.Handlers.Relay.{webrtc_offer, webrtc_answer, relay_ice_candidate}
use lantern_remote.Server.Handlers.Step.{
  sweep, sent, Event, register_device_event, connection_request_event, connection_accepted_event,
  connection_rejected_event, disconnect_device_event, webrtc_offer_event, webrtc_answer_event,
  ice_candidate_event, disconnect_event, Reachable,
}
use lantern_remote.Server.Handlers.Step.Named.{IsNamed, Reachable-IsNamed}
use lantern_remote.Client.Signaling.Inbound.{parse_session_payload}
use lantern_remote.Client.Signaling.Agreement.{parse-session, parse-ice}
use lantern_remote.SignalingPath.Handlers.{
  drop_device-IsHeard, timeout_notices-IsHeard, register_device-AllHeard,
  connection_request-AllHeard, connection_accepted_by-AllHeard, connection_rejected_by-AllHeard,
  disconnect_device-AllHeard,
}
use lantern_remote.SignalingPath.{IsRead, IsHeard, AllHeard}

-- What a relay sends, it has routed.
relayed-AllHeard :
    (o : Outcome) (s : SignalingServer) (P : Outcome → Type 0)
    → Relays s P o
    → (P o → (target : Text) × (m : Message) × (o.effects ≡ emit target m ∷ []) × IsRead m)
    → AllHeard o
relayed-AllHeard o s P (same, inl (silent, refused)) k = rw silent tt
relayed-AllHeard o s P (same, inr p) k = let (target, m, e, h) = k p in rw e (h, tt)

parse_session-kind :
    (raw : Value) (kind : SdpType) (p : WebRtcSessionPayload)
    → Signaling.parse_session_payload raw kind ≡ some p
    → p.kind ≡ kind
unfolding Signaling.parse_session_payload
parse_session-kind raw kind p h = ground arith

session-IsRead :
    (raw : Value) (kind : SdpType) (p : WebRtcSessionPayload)
    → Signaling.parse_session_payload raw kind ≡ some p
    → IsRead (webrtc_session p)
session-IsRead raw kind p h =
    subst (λ k. parse_session_payload (body (webrtc_session p)) k ≡ some p)
      (sym (parse_session-kind raw kind p h)) (parse-session raw kind p h)

relayed_session-AllHeard :
    (rt : Runtime) (socket : Text) (raw : Value) (s : SignalingServer) (kind : SdpType)
    (from to : ConnectionRoom → Text) (o : Outcome)
    → Relays s (RoutedSession rt socket s raw kind from to) o
    → AllHeard o
relayed_session-AllHeard rt socket raw s kind from to o h =
    relayed-AllHeard o s (RoutedSession rt socket s raw kind from to) h
      λ (p, room, e, f, r). (r.target, webrtc_session p, r.effects, session-IsRead raw kind p e)

-- What the server sends at an event of a socket is heard.
sent-AllHeard :
    (rt : Runtime) (socket : Text) (e : Event) (s : SignalingServer)
    → IsNamed s.registry
    → All IsHeard (sent rt socket e s)
unfolding sent socket_disconnect
sent-AllHeard rt socket (register_device_event raw) s v = register_device-AllHeard s v socket raw
sent-AllHeard rt socket (connection_request_event raw) s v =
    connection_request-AllHeard s v rt socket raw
sent-AllHeard rt socket (connection_accepted_event raw) s v =
    connection_accepted_by-AllHeard s v socket raw
sent-AllHeard rt socket (connection_rejected_event raw) s v =
    connection_rejected_by-AllHeard s v socket raw
sent-AllHeard rt socket (disconnect_device_event raw) s v =
    disconnect_device-AllHeard s v socket raw
sent-AllHeard rt socket (webrtc_offer_event raw) s v =
    relayed_session-AllHeard rt socket raw s Signaling.offer (λ r. r.client_device_id)
      (λ r. r.host_device_id) (webrtc_offer rt socket raw s) (webrtc_offer-Relays rt socket raw s)
sent-AllHeard rt socket (webrtc_answer_event raw) s v =
    relayed_session-AllHeard rt socket raw s Signaling.answer (λ r. r.host_device_id)
      (λ r. r.client_device_id) (webrtc_answer rt socket raw s)
      (webrtc_answer-Relays rt socket raw s)
sent-AllHeard rt socket (ice_candidate_event raw) s v =
    relayed-AllHeard (relay_ice_candidate rt socket raw s) s (RoutedCandidate rt socket s raw)
      (relay_ice_candidate-Relays rt socket raw s)
      λ (p, room, from, to, e, f, m, r). (r.target, ice_candidate p, r.effects, parse-ice raw p e)
sent-AllHeard rt socket disconnect_event s v = drop_device-IsHeard socket _ _

-- In every state of a running server, whatever a socket sends it or the timer does, each message
-- that it emits is let through by the client's validator of its event, with the content that the
-- server put in (of the announcements of devices, which no client listens to, nothing is said).
pub served-IsHeard :
    {s : SignalingServer} (rt : Runtime) (socket : Text) (e : Event)
    → Reachable s
    → All IsHeard (sent rt socket e s) × All IsHeard (sweep rt s).1
unfolding sweep
served-IsHeard {s} rt socket e reach =
    (sent-AllHeard rt socket e s (Reachable-IsNamed reach), timeout_notices-IsHeard _ _)
