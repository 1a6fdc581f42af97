-- ===== src/Server/Handlers/Relay/Routing.antt =====
-- Who receives what is relayed, and that a relay changes no state.
use lantern_remote.Common.{
  ◌≡◌, refl, true, not, ◌||◌, ◌⊎◌, inl, inr, [], ◌∷◌, some, arith, Text, ◌==◌, Option, present,
  false, present-eq_some,
}
use lantern_remote.Value.{Value}
use lantern_remote.Shared.Signaling
use lantern_remote.Shared.Signaling.{
  SignalingErrorCode, SdpType, WebRtcSessionPayload, IceCandidatePayload, parse_session_payload,
  parse_ice_candidate_payload,
}
use lantern_remote.Server.Rooms.{ConnectionRoom, accepted, is_pending, get_room}
use lantern_remote.Server.Registry.{get_socket, get_device_id}
use lantern_remote.Server.Handlers.{
  pass, Runtime, SignalingServer, webrtc_session, Message, emit, failed, Outcome, caller,
  live_socket, ice_candidate, ok,
}
use lantern_remote.Server.Handlers.Ensures.{
  bind-Ensures, or_refuse-Ensures, unless-Ensures, caller-eq_pass, live_socket-eq_pass, refusal,
}
use lantern_remote.Server.Handlers.Relay.{
  webrtc_offer, webrtc_answer, relay_ice_candidate, peer_device,
}

-- `m` goes from the caller, the member `from` of an accepted room, to the connected socket of the
-- member `to`, and to nobody else.
pub record IsRouted (rt : Runtime) (socket : Text) (s : SignalingServer) (room : ConnectionRoom)
    (from to : Text) (m : Message) (o : Outcome) : Type 0 where
  pub accepted : room.status ≡ accepted
  pub sender : get_device_id socket s.registry ≡ some from
  pub target : Text
  pub receiver : get_socket to s.registry ≡ some target
  pub connected : rt.connected target ≡ true
  pub effects : o.effects ≡ emit target m ∷ []

-- A relay refuses and is silent, or routes one message; either way the state is as it was.
abbrev pub Relays : SignalingServer → (Outcome → Type 0) → Outcome → Type 0
Relays s P o =
    (o.server ≡ s) × (((o.effects ≡ []) × ((e : SignalingErrorCode) × (o.ack ≡ failed e))) ⊎ P o)

-- What an offer or an answer is routed by.
abbrev pub RoutedSession :
    Runtime
    → Text
    → SignalingServer
    → (raw : Value) → SdpType
    → (ConnectionRoom → Text)
    → (ConnectionRoom → Text)
    → Outcome
    → Type 0
RoutedSession rt socket s raw kind from to o =
    (payload : WebRtcSessionPayload) × (room : ConnectionRoom) × (parse_session_payload raw kind
      ≡ some payload)
    × (get_room payload.room_id s.rooms ≡ some room)
    × IsRouted rt socket s room (from room) (to room) (webrtc_session payload) o

-- What a candidate is routed by: either member sends to the other.
abbrev pub RoutedCandidate : Runtime → Text → SignalingServer → (raw : Value) → Outcome → Type 0
RoutedCandidate rt socket s raw o =
    (payload : IceCandidatePayload) × (room : ConnectionRoom) × (from : Text) × (to : Text)
    × (parse_ice_candidate_payload raw ≡ some payload)
    × (get_room payload.room_id s.rooms ≡ some room)
    × (((from ≡ room.client_device_id) × (to ≡ room.host_device_id))
        ⊎ ((from ≡ room.host_device_id) × (to ≡ room.client_device_id)))
    × IsRouted rt socket s room from to (ice_candidate payload) o

silent :
    (s : SignalingServer) (P : Outcome → Type 0) (e : SignalingErrorCode) → Relays s P (refusal s e)
silent s P e = (refl, inl (refl, (e, refl)))

module _ (rt : Runtime) (socket : Text) (raw : Value) (s : SignalingServer) where
  -- The last step of a relay.
  routed :
      (room : ConnectionRoom) (from to target : Text) (m : Message) (room_id : Option Text)
      → is_pending room.status ≡ false
      → caller socket s ≡ pass from
      → live_socket rt to s ≡ pass target
      → IsRouted rt socket s room from to m
          (record { server = s; effects = emit target m ∷ []; ack = ok room_id })
  routed room from to target m room_id open_room e h = record {
    accepted = ground arith;
    sender = (caller-eq_pass socket s from e).0;
    target = target;
    receiver = (live_socket-eq_pass rt to s target h).0;
    connected = (live_socket-eq_pass rt to s target h).1;
    effects = refl;
  }

  abbrev Offered : Outcome → Type 0
  Offered =
      RoutedSession rt socket s raw Signaling.offer (λ r. r.client_device_id)
        (λ r. r.host_device_id)

  abbrev Answered : Outcome → Type 0
  Answered =
      RoutedSession rt socket s raw Signaling.answer (λ r. r.host_device_id)
        (λ r. r.client_device_id)

  abbrev Trickled : Outcome → Type 0
  Trickled = RoutedCandidate rt socket s raw

  offer-Relays : Relays s Offered (webrtc_offer rt socket raw s)
  unfolding webrtc_offer
  offer-Relays =
      bind-Ensures (Relays s Offered) s (silent s Offered) (caller socket s) _ λ sender e.
        or_refuse-Ensures (Relays s Offered) s (silent s Offered)
          (parse_session_payload raw Signaling.offer) Signaling.room_not_found _
          λ payload f.
            or_refuse-Ensures (Relays s Offered) s (silent s Offered)
              (get_room payload.room_id s.rooms) Signaling.room_not_found _
              λ room g.
                unless-Ensures (Relays s Offered) s (silent s Offered)
                  (is_pending room.status || not (room.client_device_id == sender))
                  Signaling.unauthorized _
                  λ allowed.
                    bind-Ensures (Relays s Offered) s (silent s Offered)
                      (live_socket rt room.host_device_id s) _
                      λ target h. (
                        refl,
                        inr (
                          payload,
                          room,
                          f,
                          g,
                          routed room room.client_device_id room.host_device_id target
                              (webrtc_session payload) (some room.id) (ground arith)
                              (ground (arith, e)) h,
                        ),
                      )

  answer-Relays : Relays s Answered (webrtc_answer rt socket raw s)
  unfolding webrtc_answer
  answer-Relays =
      bind-Ensures (Relays s Answered) s (silent s Answered) (caller socket s) _ λ sender e.
        or_refuse-Ensures (Relays s Answered) s (silent s Answered)
          (parse_session_payload raw Signaling.answer) Signaling.room_not_found _
          λ payload f.
            or_refuse-Ensures (Relays s Answered) s (silent s Answered)
              (get_room payload.room_id s.rooms) Signaling.room_not_found _
              λ room g.
                unless-Ensures (Relays s Answered) s (silent s Answered)
                  (is_pending room.status || not (room.host_device_id == sender))
                  Signaling.unauthorized _
                  λ allowed.
                    bind-Ensures (Relays s Answered) s (silent s Answered)
                      (live_socket rt room.client_device_id s) _
                      λ target h. (
                        refl,
                        inr (
                          payload,
                          room,
                          f,
                          g,
                          routed room room.host_device_id room.client_device_id target
                              (webrtc_session payload) (some room.id) (ground arith)
                              (ground (arith, e)) h,
                        ),
                      )

  candidate-Relays : Relays s Trickled (relay_ice_candidate rt socket raw s)
  unfolding relay_ice_candidate
  candidate-Relays =
      bind-Ensures (Relays s Trickled) s (silent s Trickled) (caller socket s) _ λ sender e.
        or_refuse-Ensures (Relays s Trickled) s (silent s Trickled)
          (parse_ice_candidate_payload raw) Signaling.room_not_found _
          λ payload f.
            or_refuse-Ensures (Relays s Trickled) s (silent s Trickled)
              (get_room payload.room_id s.rooms) Signaling.room_not_found _
              λ room g.
                unless-Ensures (Relays s Trickled) s (silent s Trickled) (is_pending room.status)
                  Signaling.room_not_found _
                  λ open_room.
                    or_refuse-Ensures (Relays s Trickled) s (silent s Trickled)
                      (present (peer_device room sender)) Signaling.unauthorized _
                      λ peer k.
                        bind-Ensures (Relays s Trickled) s (silent s Trickled)
                          (live_socket rt peer s) _
                          λ target h. (
                            refl,
                            inr (
                              payload,
                              room,
                              sender,
                              peer,
                              f,
                              g,
                              ground (arith, present-eq_some (peer_device room sender) peer k),
                              routed room sender peer target (ice_candidate payload) (some room.id)
                                  open_room e h,
                            ),
                          )

-- An offer is refused, with nothing sent, or goes from the client of the accepted room that it
-- names to the connected socket of that room's host and to nobody else. The state stays as it was.
pub webrtc_offer-Relays :
    (rt : Runtime) (socket : Text) (raw : Value) (s : SignalingServer)
    → Relays s
        (RoutedSession rt socket s raw Signaling.offer
          (λ r. r.client_device_id)
          (λ r. r.host_device_id))
        (webrtc_offer rt socket raw s)
webrtc_offer-Relays = offer-Relays

-- An answer is refused, with nothing sent, or goes from the host of the accepted room that it
-- names to the connected socket of that room's client and to nobody else. The state stays as it was.
pub webrtc_answer-Relays :
    (rt : Runtime) (socket : Text) (raw : Value) (s : SignalingServer)
    → Relays s
        (RoutedSession rt socket s raw Signaling.answer
          (λ r. r.host_device_id)
          (λ r. r.client_device_id))
        (webrtc_answer rt socket raw s)
webrtc_answer-Relays = answer-Relays

-- A candidate is refused, with nothing sent, or goes from one member of the accepted room that it
-- names to the connected socket of the other and to nobody else. The state stays as it was.
pub relay_ice_candidate-Relays :
    (rt : Runtime) (socket : Text) (raw : Value) (s : SignalingServer)
    → Relays s (RoutedCandidate rt socket s raw) (relay_ice_candidate rt socket raw s)
relay_ice_candidate-Relays = candidate-Relays
