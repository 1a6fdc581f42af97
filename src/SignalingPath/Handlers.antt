-- ===== src/SignalingPath/Handlers.antt =====
-- The handlers of registration and of rooms, and the timer, emit what the clients read.
use lantern_remote.Common.{
  ◌≡◌, not, ◌&&◌, ◌||◌, List, [], ◌∷◌, Option, none, some, Text, All, All-append, ◌==◌,
}
use lantern_remote.Value.{Value}
use lantern_remote.Shared.DeviceId.{parse_device_id}
use lantern_remote.Shared.Signaling
use lantern_remote.Shared.Signaling.{
  SignalingErrorCode, parse_register_device_payload, parse_connection_request_payload,
  parse_room_action_payload, parse_rejection_payload, parse_ice_candidate_payload, SdpType,
  WebRtcSessionPayload,
}
use lantern_remote.Server.Rooms.{
  ConnectionRoom, is_pending, get_room, get_by_device, create_pending,
}
use lantern_remote.Server.Registry.{get_socket, register}
use lantern_remote.Server.Handlers.{
  Runtime, SignalingServer, Message, settle, caller, live_socket, ended_by, pass, end_room, emit_if,
  close_if, offline, timeout, other_member, left,
}
use lantern_remote.Server.Handlers.Ensures.{
  bind-Ensures, or_refuse-Ensures, unless-Ensures, refusal, caller-eq_pass,
}
use lantern_remote.Server.Handlers.Session.{
  registered, register_device, is_busy, connection_request, connection_accepted_by,
  connection_rejected_by, addressed, disconnect_device, drop_device, tell_peer, drop_room,
  peer_socket,
}
use lantern_remote.Server.Handlers.Step.{timeout_notices}
use lantern_remote.Server.Handlers.Step.Named.{IsNamed}
use lantern_remote.Client.Signaling.Agreement.{
  parse-incoming, parse-decision, parse-peer_disconnected,
}
use lantern_remote.SignalingPath.{IsRead, IsHeard, AllHeard}

emit_if-IsHeard : (o : Option Text) (m : Message) → IsRead m → All IsHeard (emit_if o m)
emit_if-IsHeard none m h = tt
emit_if-IsHeard (some socket) m h = (h, tt)

end_room-IsHeard :
    (s : SignalingServer) (d : Text) (o : Option (Text × ConnectionRoom))
    → All IsHeard (end_room s d o).1
end_room-IsHeard s d none = tt
end_room-IsHeard s d (some (previous, room)) =
    let gone = parse-peer_disconnected room.id offline in
    (gone, emit_if-IsHeard (get_socket (other_member room d) s.registry) _ gone)

close_if-IsHeard : (o : Option Text) → All IsHeard (close_if o)
close_if-IsHeard none = tt
close_if-IsHeard (some socket) = (tt, tt)

tell_peer-IsHeard : (o : Option Text) (room_id : Text) → All IsHeard (tell_peer o room_id)
tell_peer-IsHeard none room_id = tt
tell_peer-IsHeard (some peer) room_id = (parse-peer_disconnected room_id offline, tt)

drop_room-IsHeard :
    (socket : Text) (s : SignalingServer) (o : Option ConnectionRoom)
    → All IsHeard (drop_room socket s o).1
drop_room-IsHeard socket s none = tt
drop_room-IsHeard socket s (some room) =
    (parse-peer_disconnected room.id offline, tell_peer-IsHeard (peer_socket socket room) room.id)

pub drop_device-IsHeard :
    (socket : Text) (s : SignalingServer) (o : Option Text) → All IsHeard (drop_device socket s o).1
drop_device-IsHeard socket s none = tt
drop_device-IsHeard socket s (some d) =
    All-append IsHeard _ _ (drop_room-IsHeard socket s (get_by_device d s.rooms)) (tt, tt)

pub timeout_notices-IsHeard :
    (expired : List ConnectionRoom) (s : SignalingServer) → All IsHeard (timeout_notices expired s)
timeout_notices-IsHeard [] s = tt
timeout_notices-IsHeard (room ∷ rest) s =
    let gone = parse-peer_disconnected room.id timeout in
    (
      gone,
      All-append IsHeard _ _ (emit_if-IsHeard (get_socket room.host_device_id s.registry) _ gone)
          (timeout_notices-IsHeard rest s),
    )

module _ (s : SignalingServer) (v : IsNamed s.registry) where
  silent : (e : SignalingErrorCode) → AllHeard (refusal s e)
  silent e = tt

  caller_parses : (socket d : Text) → caller socket s ≡ pass d → parse_device_id d ≡ some d
  caller_parses socket d h = v.named socket d (caller-eq_pass socket s d h).0

  registered-AllHeard : (socket d : Text) → AllHeard (settle s (registered socket d s))
  registered-AllHeard socket d =
      let ended = ended_by socket (get_socket d s.registry) (get_by_device d s.rooms) in
      let s' = (end_room s d ended).0 in
      All-append IsHeard (end_room s d ended).1 _ (end_room-IsHeard s d ended)
        (All-append IsHeard _ _ (close_if-IsHeard (register d socket s'.registry).0) (tt, tt))

  pub register_device-AllHeard :
      (socket : Text) (raw : Value) → AllHeard (register_device socket raw s)
  unfolding register_device
  register_device-AllHeard socket raw =
      or_refuse-Ensures AllHeard s silent (parse_register_device_payload raw) Signaling.invalid_id
        (λ d. registered socket d s) (λ d e. registered-AllHeard socket d)

  pub connection_request-AllHeard :
      (rt : Runtime) (socket : Text) (raw : Value) → AllHeard (connection_request rt socket raw s)
  unfolding connection_request
  connection_request-AllHeard rt socket raw =
      bind-Ensures AllHeard s silent (caller socket s) _ λ d e.
        or_refuse-Ensures AllHeard s silent (parse_connection_request_payload raw)
          Signaling.invalid_id _
          λ payload f.
            unless-Ensures AllHeard s silent (payload.target_device_id == d) Signaling.self_connect
              _
              λ other.
                unless-Ensures AllHeard s silent (is_busy d s || is_busy payload.target_device_id s)
                  Signaling.already_in_session _
                  λ free.
                    bind-Ensures AllHeard s silent (live_socket rt payload.target_device_id s) _
                      λ host_socket g.
                        let room =
                          (create_pending rt.uuid rt.now d payload.target_device_id socket
                            s.rooms).0 in
                        (
                          tt,
                          (parse-incoming raw room.id d payload (caller_parses socket d e) f, tt),
                        )

  pub connection_accepted_by-AllHeard :
      (socket : Text) (raw : Value) → AllHeard (connection_accepted_by socket raw s)
  unfolding connection_accepted_by
  connection_accepted_by-AllHeard socket raw =
      bind-Ensures AllHeard s silent (caller socket s) _ λ d e.
        or_refuse-Ensures AllHeard s silent (parse_room_action_payload raw) Signaling.room_not_found
          _
          λ room_id f.
            or_refuse-Ensures AllHeard s silent (get_room room_id s.rooms) Signaling.room_not_found
              _
              λ room g.
                unless-Ensures AllHeard s silent
                  (not (room.host_device_id == d) || not (is_pending room.status))
                  Signaling.unauthorized _
                  λ allowed. (tt, ((parse-decision room.id d (caller_parses socket d e)).0, tt))

  pub connection_rejected_by-AllHeard :
      (socket : Text) (raw : Value) → AllHeard (connection_rejected_by socket raw s)
  unfolding connection_rejected_by
  connection_rejected_by-AllHeard socket raw =
      bind-Ensures AllHeard s silent (caller socket s) _ λ d e.
        or_refuse-Ensures AllHeard s silent (parse_rejection_payload raw) Signaling.room_not_found _
          λ payload f.
            or_refuse-Ensures AllHeard s silent (get_room payload.room_id s.rooms)
              Signaling.room_not_found _
              λ room g.
                unless-Ensures AllHeard s silent (not (room.host_device_id == d))
                  Signaling.unauthorized _
                  λ allowed.
                    ((parse-decision room.id d (caller_parses socket d e)).1 payload.reason, tt)

  pub disconnect_device-AllHeard :
      (socket : Text) (raw : Value) → AllHeard (disconnect_device socket raw s)
  unfolding disconnect_device
  disconnect_device-AllHeard socket raw = bind-Ensures AllHeard s silent (caller socket s) _ λ d e.
      or_refuse-Ensures AllHeard s silent (addressed (parse_room_action_payload raw) d s)
        Signaling.room_not_found _
        λ room f.
          unless-Ensures AllHeard s silent
            (not (room.client_device_id == d) && not (room.host_device_id == d))
            Signaling.unauthorized _ λ allowed. (parse-peer_disconnected room.id left, tt)
