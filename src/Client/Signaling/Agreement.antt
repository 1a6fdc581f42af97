-- ===== src/Client/Signaling/Agreement.antt =====
-- src/services/SignalingService.ts and server/socket/handlers.ts: the client's validators let
-- through what the server emits.
use lantern_remote.Shared.DeviceId.{parse_device_id}
use lantern_remote.Common.{refl, ◌≡◌, Option, none, some, arith, Text, text, Text-discrete}
use lantern_remote.Value.{Value, Number, string, read, object, number}
use lantern_remote.Shared.Signaling.Accepts.{present-parse, is_valid-token}
use lantern_remote.Shared.Signaling
use lantern_remote.Shared.Signaling.{
  ConnectionRejectionReason, SdpType, WebRtcSessionPayload, IceCandidatePayload, sdp_mid_of,
  line_index_of,
}
use lantern_remote.Server.Handlers.{
  DisconnectReason, left, offline, timeout, rejected, incoming_connection, connection_accepted,
  connection_rejected, peer_disconnected, webrtc_session, ice_candidate,
}
use lantern_remote.Server.Handlers.Bodies.{body, rejection_text, number_or_null, or_null}
use lantern_remote.Client.Signaling.Inbound.{
  parse_incoming, parse_decision, decision_reason, parse_peer_disconnected, disconnect_reason,
  parse_session_payload, parse_ice_payload,
}

-- A request that the server passes on from a device with a normal id is read by the host's client as it
-- was: the room, the device and the code.
pub parse-incoming :
    (raw : Value) (room_id d : Text) (p : Signaling.ConnectionRequestPayload)
    → parse_device_id d ≡ some d
    → Signaling.parse_connection_request_payload raw ≡ some p
    → parse_incoming (body (incoming_connection room_id d p.token))
      ≡ some (record { room_id = room_id; from_device_id = d; token = p.token })
unfolding parse_incoming body read
parse-incoming raw room_id d p h k =
    let e = present-parse d h in let t = is_valid-token raw p k in rw (e, t) refl

-- The reason of a rejection survives.
decision_reason-rejection_text :
    (r : ConnectionRejectionReason) → decision_reason (string (rejection_text r)) ≡ some (some r)
unfolding decision_reason text Text-discrete
decision_reason-rejection_text Signaling.declined = refl
decision_reason-rejection_text Signaling.invalid_token = refl

sdp_mid_of-or_null :
    (v : Value) (m : Option Text) → sdp_mid_of v ≡ some m → sdp_mid_of (or_null m) ≡ some m
unfolding sdp_mid_of
sdp_mid_of-or_null v none h = refl
sdp_mid_of-or_null v (some t) h = refl

line_index_of-number_or_null :
    (v : Value) (i : Option Number)
    → line_index_of v ≡ some i
    → line_index_of (number_or_null i) ≡ some i
unfolding line_index_of
line_index_of-number_or_null v none h = refl
line_index_of-number_or_null (number m) (some n) h = ground arith
line_index_of-number_or_null _ (some n) h = absurd (cc)

-- The client reads the host's decision as the server announces it: an acceptance has no reason, a
-- rejection keeps its own.
pub parse-decision :
    (room_id d : Text)
    → parse_device_id d ≡ some d
    → (parse_decision (body (connection_accepted room_id d))
        ≡ some (record { room_id = room_id; host_device_id = d; reason = none }))
      × ((r : ConnectionRejectionReason)
          → parse_decision (body (connection_rejected room_id d r))
            ≡ some (record { room_id = room_id; host_device_id = d; reason = some r }))
unfolding parse_decision body read decision_reason
parse-decision room_id d h =
    rw (present-parse d h) (refl, λ r. rw (decision_reason-rejection_text r) refl)

-- The client reads every announcement that a peer has gone, with its reason.
pub parse-peer_disconnected :
    (room_id : Text) (reason : DisconnectReason)
    → parse_peer_disconnected (body (peer_disconnected room_id reason))
      ≡ some (record { room_id = room_id; reason = reason })
unfolding parse_peer_disconnected body read disconnect_reason text Text-discrete
parse-peer_disconnected room_id left = refl
parse-peer_disconnected room_id offline = refl
parse-peer_disconnected room_id timeout = refl
parse-peer_disconnected room_id rejected = refl

-- A session description that the server's validator lets through passes the client's, unchanged.
pub parse-session :
    (raw : Value) (kind : SdpType) (p : WebRtcSessionPayload)
    → Signaling.parse_session_payload raw kind ≡ some p
    → parse_session_payload (body (webrtc_session p)) kind ≡ some p
unfolding Signaling.parse_session_payload Signaling.parse_room_action_payload parse_session_payload
    body read
parse-session (object fs) kind p h = ground arith
parse-session _ kind p h = absurd (cc)

-- A candidate that the server's validator lets through passes the client's, unchanged.
pub parse-ice :
    (raw : Value) (p : IceCandidatePayload)
    → Signaling.parse_ice_candidate_payload raw ≡ some p
    → parse_ice_payload (body (ice_candidate p)) ≡ some p
unfolding Signaling.parse_ice_candidate_payload Signaling.parse_room_action_payload
    parse_ice_payload body read
parse-ice (object fs) p h = ground (
  arith,
  sdp_mid_of-or_null (read "sdpMid" fs) p.sdp_mid,
  line_index_of-number_or_null (read "sdpMLineIndex" fs) p.sdp_m_line_index,
)
parse-ice _ p h = absurd (cc)
