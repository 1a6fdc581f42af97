-- ===== src/SignalingPath.antt =====
-- server/socket/handlers.ts, server/index.ts and src/services/SignalingService.ts together: what the
-- server emits, and what the clients' validators let through.
mod Handlers
pub mod Served
pub mod Handshake
mod Tests
use lantern_remote.Server.Handlers.Relay.Routing.{
  Relays, webrtc_offer-Relays, webrtc_answer-Relays, relay_ice_candidate-Relays, RoutedSession,
  RoutedCandidate,
}
use lantern_remote.Common.{
  ◌≡◌, ◌≢◌, refl, Bool, true, false, not, ◌&&◌, ◌||◌, List, [], ◌∷◌, ◌++◌, Option, none, some,
  arith, Text, All, All-append, ◌==◌, present, inl, inr, subst, sym,
}
use lantern_remote.Value.{Value}
use lantern_remote.Shared.DeviceId.{parse_device_id}
use lantern_remote.Shared.Signaling
use lantern_remote.Shared.Signaling.{
  SignalingErrorCode, parse_register_device_payload, parse_connection_request_payload,
  parse_room_action_payload, parse_rejection_payload, parse_ice_candidate_payload, SdpType,
  WebRtcSessionPayload,
}
use lantern_remote.Shared.Signaling.Accepts.{parse_register_self, is_valid-token}
use lantern_remote.Server.Rooms.{
  ConnectionRoom, is_pending, get_room, get_by_device, create_pending,
}
use lantern_remote.Server.Registry.{get_device_id, unregister_socket, get_socket, register}
use lantern_remote.Server.Handlers.{
  Runtime, SignalingServer, Message, device_online, device_offline, incoming_connection,
  connection_accepted, connection_rejected, peer_disconnected, webrtc_session, ice_candidate,
  Effect, emit, emit_to, emit_all, join, close, Outcome, settle, caller, live_socket, ended_by,
  pass, end_room, emit_if, close_if, offline, timeout, other_member, left,
}
use lantern_remote.Server.Handlers.Bodies.{body}
use lantern_remote.Server.Handlers.Ensures.{
  bind-Ensures, or_refuse-Ensures, unless-Ensures, refusal, caller-eq_pass,
}
use lantern_remote.Server.Handlers.Session.{
  registered, register_device, is_busy, requested, connection_request, connection_accepted_by,
  connection_rejected_by, addressed, disconnect_device, drop_device, socket_disconnect, tell_peer,
  drop_room, peer_socket,
}
use lantern_remote.Server.Handlers.Relay.{webrtc_offer, webrtc_answer, relay_ice_candidate}
use lantern_remote.Server.Handlers.Step.{
  sweep, sent, Event, register_device_event, connection_request_event, connection_accepted_event,
  connection_rejected_event, disconnect_device_event, webrtc_offer_event, webrtc_answer_event,
  ice_candidate_event, disconnect_event, Reachable, timeout_notices,
}
use lantern_remote.Server.Handlers.Step.Named.{IsNamed, Reachable-IsNamed}
use lantern_remote.Client.Signaling.Inbound.{
  parse_incoming, parse_decision, parse_peer_disconnected, parse_session_payload, parse_ice_payload,
}
use lantern_remote.Client.Signaling.Agreement.{
  parse-incoming, parse-decision, parse-peer_disconnected, parse-session, parse-ice,
}

-- The listener of the message's event reads from its body what the server put in. No client
-- listens for the two announcements of a device.
abbrev pub IsRead : Message → Type 0
IsRead (device_online d) = Unit {0}
IsRead (device_offline d) = Unit {0}
IsRead (incoming_connection room_id d token) =
    parse_incoming (body (incoming_connection room_id d token))
    ≡ some (record { room_id = room_id; from_device_id = d; token = token })
IsRead (connection_accepted room_id d) =
    parse_decision (body (connection_accepted room_id d))
    ≡ some (record { room_id = room_id; host_device_id = d; reason = none })
IsRead (connection_rejected room_id d r) =
    parse_decision (body (connection_rejected room_id d r))
    ≡ some (record { room_id = room_id; host_device_id = d; reason = some r })
IsRead (peer_disconnected room_id r) =
    parse_peer_disconnected (body (peer_disconnected room_id r))
    ≡ some (record { room_id = room_id; reason = r })
IsRead (webrtc_session p) = parse_session_payload (body (webrtc_session p)) p.kind ≡ some p
IsRead (ice_candidate p) = parse_ice_payload (body (ice_candidate p)) ≡ some p

-- An emitted message is read; joining and closing carry none.
abbrev pub IsHeard : Effect → Type 0
IsHeard (emit socket m) = IsRead m
IsHeard (emit_to target m) = IsRead m
IsHeard (emit_all m) = IsRead m
IsHeard (join socket room_id) = Unit {0}
IsHeard (close socket) = Unit {0}

abbrev pub AllHeard : Outcome → Type 0
AllHeard o = All IsHeard o.effects
