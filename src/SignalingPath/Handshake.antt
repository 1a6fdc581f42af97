-- ===== src/SignalingPath/Handshake.antt =====
-- The way from a request to a negotiated session, through the server.
use lantern_remote.Client.Signaling.Agreement.{parse-incoming, parse-decision}
use lantern_remote.Client.Signaling.Requests.{parse-asked, parse-room_requests}
use lantern_remote.Server.Handlers.Ensures.{caller-eq_pass}
use lantern_remote.Server.Handlers.Step.Named.{Reachable-IsNamed}
use lantern_remote.Client.Signaling.Inbound.{parse_incoming, parse_decision}
use lantern_remote.Shared.ConnectionToken.{is_valid_token_format}
use lantern_remote.Server.Handlers.Step.{Reachable}
use lantern_remote.Dict.{get-put}
use lantern_remote.Server.Handlers.Relay.{webrtc_answer, webrtc_offer}
use lantern_remote.Server.Handlers.Bodies.{body}
use lantern_remote.Client.Signaling.{connection_to, accept_room, send_session, request_body}
use lantern_remote.Common.{
  ◌≡◌, ◌≤◌, refl, false, ◌||◌, [], ◌∷◌, some, Text, length, ◌==◌, arith, true, none,
}
use lantern_remote.Value.{Value, string}
use lantern_remote.Shared.Signaling
use lantern_remote.Shared.Signaling.{
  parse_connection_request_payload, parse_room_action_payload, WebRtcSessionPayload,
}
use lantern_remote.Server.Rooms.{
  ConnectionRooms, is_pending, create_pending, new_room, accept, get_room, ConnectionRoom, admitted,
}
use lantern_remote.Server.Handlers.{
  Runtime, SignalingServer, pass, ok, caller, live_socket, incoming_connection, join, emit, emit_to,
  connection_accepted, webrtc_session,
}
use lantern_remote.Server.Handlers.Session.{connection_request, is_busy, connection_accepted_by}

get_room-accept :
    (k host_socket : Text) (t : ConnectionRooms) (r : ConnectionRoom)
    → get_room k t ≡ some r
    → is_pending r.status ≡ true
    → get_room k (accept k host_socket t).1 ≡ some (admitted r host_socket)
unfolding get_room accept
get_room-accept k host_socket t r there waits =
    rw (there, waits) (ground (arith, get-put k k (admitted r host_socket) t.rooms))

-- Two devices, each registered from a connected socket, neither of them in a room, and the next id of
-- a room, of a length that the validators allow.
pub record AreReady (rt : Runtime) (s : SignalingServer) (a b client host : Text) : Type 0 where
  pub client_calls : caller a s ≡ pass client
  pub host_calls : caller b s ≡ pass host
  pub client_socket : live_socket rt client s ≡ pass a
  pub host_socket : live_socket rt host s ≡ pass b
  pub apart : (host == client) ≡ false
  pub free : (is_busy client s || is_busy host s) ≡ false
  pub long_id : 8 ≤ length rt.uuid
  pub short_id : length rt.uuid ≤ 80

module _ (rt : Runtime) (s : SignalingServer) (a b client host : Text)
    (v : AreReady rt s a b client host) where
  -- The server once the request has been made, and once it has been accepted.
  abbrev asked : SignalingServer
  asked = record s { rooms = (create_pending rt.uuid rt.now client host a s.rooms).1 }

  abbrev agreed : SignalingServer
  agreed = record asked { rooms = (accept rt.uuid b asked.rooms).1 }

  request_lem :
      (raw : Value) (token : Text)
      → parse_connection_request_payload raw
        ≡ some (record { target_device_id = host; token = token })
      → connection_request rt a raw s ≡ record {
        server = asked;
        effects = join a rt.uuid ∷ (emit b (incoming_connection rt.uuid client token) ∷ []);
        ack = ok (some rt.uuid);
      }
  unfolding connection_request create_pending new_room
  request_lem raw token h = rw (v.client_calls, h, v.apart, v.free, v.host_socket) refl

  abbrev pub waiting_room : ConnectionRoom
  waiting_room = new_room rt.uuid rt.now client host a

  asked-room : get_room rt.uuid asked.rooms ≡ some waiting_room
  unfolding create_pending get_room new_room
  asked-room = ground (arith, get-put rt.uuid rt.uuid waiting_room s.rooms.rooms)

  agreed-room : get_room rt.uuid agreed.rooms ≡ some (admitted waiting_room b)
  agreed-room =
      get_room-accept rt.uuid b asked.rooms waiting_room asked-room (unfold new_room in refl)

  accept_lem :
      (raw : Value)
      → parse_room_action_payload raw ≡ some rt.uuid
      → connection_accepted_by b raw asked ≡ record {
        server = agreed;
        effects = join b rt.uuid ∷ (emit_to a (connection_accepted rt.uuid host) ∷ []);
        ack = ok (some rt.uuid);
      }
  unfolding connection_accepted_by new_room
  accept_lem raw h = rw (v.host_calls, h, asked-room) (ground arith)

  offer_lem :
      (raw : Value) (p : WebRtcSessionPayload)
      → Signaling.parse_session_payload raw Signaling.offer ≡ some p
      → p.room_id ≡ rt.uuid
      → webrtc_offer rt a raw agreed ≡ record {
        server = agreed;
        effects = emit b (webrtc_session p) ∷ [];
        ack = ok (some rt.uuid);
      }
  unfolding webrtc_offer admitted new_room
  offer_lem raw p h same = rw (v.client_calls, h, same, agreed-room) (ground (arith, v.host_socket))

  answer_lem :
      (raw : Value) (p : WebRtcSessionPayload)
      → Signaling.parse_session_payload raw Signaling.answer ≡ some p
      → p.room_id ≡ rt.uuid
      → webrtc_answer rt b raw agreed ≡ record {
        server = agreed;
        effects = emit a (webrtc_session p) ∷ [];
        ack = ok (some rt.uuid);
      }
  unfolding webrtc_answer admitted new_room
  answer_lem raw p h same =
      rw (v.host_calls, h, same, agreed-room) (ground (arith, v.client_socket))

  -- Between two registered, connected and free devices, when the next room has an id of 8 to 80
  -- units, the way is open to the end. What the client's window asks for with a code of the right
  -- format reaches the host's socket, and the host's window reads it; what this accepts reaches the
  -- client's socket, and the client's window reads it; then a description for the room that the
  -- validator lets through is relayed each way. Each is acknowledged with the room. The state is
  -- that of a running server, and the sockets stay connected.
  pub handshake :
      Reachable s
      → (token : Text) (p q : WebRtcSessionPayload) → is_valid_token_format (string token) ≡ true
      → Signaling.parse_session_payload (body (webrtc_session p)) Signaling.offer ≡ some p
      → Signaling.parse_session_payload (body (webrtc_session q)) Signaling.answer ≡ some q
      → p.room_id ≡ rt.uuid
      → q.room_id ≡ rt.uuid
      → let o1 = connection_request rt a (request_body (connection_to host token)) s in
        let o2 = connection_accepted_by b (request_body (accept_room rt.uuid)) o1.server in
        let o3 = webrtc_offer rt a (request_body (send_session p)) o2.server in
        let o4 = webrtc_answer rt b (request_body (send_session q)) o3.server in
        (o1.effects ≡ join a rt.uuid ∷ (emit b (incoming_connection rt.uuid client token) ∷ []))
        × (parse_incoming (body (incoming_connection rt.uuid client token))
            ≡ some (record { room_id = rt.uuid; from_device_id = client; token = token }))
        × (o2.effects ≡ join b rt.uuid ∷ (emit_to a (connection_accepted rt.uuid host) ∷ []))
        × (parse_decision (body (connection_accepted rt.uuid host))
            ≡ some (record { room_id = rt.uuid; host_device_id = host; reason = none }))
        × (o3.effects ≡ emit b (webrtc_session p) ∷ [])
        × (o4.effects ≡ emit a (webrtc_session q) ∷ [])
        × (o1.ack ≡ ok (some rt.uuid))
        × (o2.ack ≡ ok (some rt.uuid))
        × (o3.ack ≡ ok (some rt.uuid))
        × (o4.ack ≡ ok (some rt.uuid))
  unfolding request_body
  handshake reach token p q valid offered answered in_room back_in_room =
      let named = (Reachable-IsNamed reach).named in
      let client_id = named a client (caller-eq_pass a s client v.client_calls).0 in
      let host_id = named b host (caller-eq_pass b s host v.host_calls).0 in
      let asks = parse-asked host token host_id valid in
      let first = request_lem (request_body (connection_to host token)) token asks in
      let accepts = (parse-room_requests rt.uuid Signaling.declined v.long_id v.short_id).0 in
      let second = accept_lem (request_body (accept_room rt.uuid)) accepts in
      let third = offer_lem (body (webrtc_session p)) p offered in_room in
      let fourth = answer_lem (body (webrtc_session q)) q answered back_in_room in
      rw (first, second, third, fourth)
        (
          refl,
          parse-incoming (request_body (connection_to host token)) rt.uuid client
              (record { target_device_id = host; token = token }) client_id asks,
          refl,
          (parse-decision rt.uuid host host_id).0,
          refl,
          refl,
          refl,
          refl,
          refl,
          refl,
        )
