-- ===== src/Server/Handlers/Step/Invariant.antt =====
-- What holds in every state of the server.
use lantern_remote.Common.{
  ◌≡◌, ◌≢◌, false, [], ◌∷◌, Option, none, some, arith, Text, ◌==◌, not, ◌&&◌, ◌||◌,
}
use lantern_remote.Dict.{get}
use lantern_remote.Value.{Value}
use lantern_remote.Shared.Signaling
use lantern_remote.Shared.Signaling.{
  SignalingErrorCode, ConnectionRequestPayload, RejectionPayload, parse_register_device_payload,
  parse_connection_request_payload, parse_room_action_payload, parse_rejection_payload,
}
use lantern_remote.Shared.Signaling.Accepts.{length-parse_register}
use lantern_remote.Server.Rooms.{ConnectionRoom, get_room, get_by_device, is_pending}
use lantern_remote.Server.Rooms.Consistency.{IsConsistent, get-by_device-eq_none}
use lantern_remote.Server.Rooms.Preservation.{
  create_pending-IsConsistent, accept-IsConsistent, remove-IsConsistent,
}
use lantern_remote.Server.Registry.{get_socket, unregister_socket}
use lantern_remote.Server.Registry.Laws.{IsCurrent, register-IsCurrent, unregister_socket-IsCurrent}
use lantern_remote.Server.Handlers.{
  Runtime, SignalingServer, Outcome, settle, caller, live_socket, ended_by, end_room,
}
use lantern_remote.Server.Handlers.Ensures.{
  bind-Ensures, or_refuse-Ensures, unless-Ensures, refusal,
}
use lantern_remote.Server.Handlers.Session.{
  registered, register_device, is_busy, requested, connection_request, connection_accepted_by,
  connection_rejected_by, addressed, disconnect_device, drop_room, drop_device, socket_disconnect,
}
use lantern_remote.Server.Handlers.Step.{IsUnused}

pub record IsSound (s : SignalingServer) : Type 0 where
  pub current : IsCurrent s.registry
  pub consistent : IsConsistent s.rooms

abbrev Keeps : Outcome → Type 0
Keeps o = IsSound o.server

parsed_id-ne : (raw : Value) (d : Text) → parse_register_device_payload raw ≡ some d → d ≢ []
parsed_id-ne raw [] h = absurd (omega (arith, length-parse_register raw [] h))
parsed_id-ne raw (c ∷ d) h = λ e. cc

module _ {s : SignalingServer} (v : IsSound s) where
  refused : (e : SignalingErrorCode) → Keeps (refusal s e)
  refused e = v

  end_room-IsSound : (d : Text) (o : Option (Text × ConnectionRoom)) → IsSound (end_room s d o).0
  end_room-IsSound d none = v
  end_room-IsSound d (some (previous, room)) = record {
    current = v.current;
    consistent = remove-IsConsistent v.consistent room.id;
  }

  registered-IsSound : (socket d : Text) → d ≢ [] → Keeps (settle s (registered socket d s))
  registered-IsSound socket d named =
      let kept =
        end_room-IsSound d (ended_by socket (get_socket d s.registry) (get_by_device d s.rooms)) in
      record {
        current = register-IsCurrent d socket named kept.current;
        consistent = kept.consistent;
      }

  pub register_device-IsSound : (socket : Text) (raw : Value) → Keeps (register_device socket raw s)
  unfolding register_device
  register_device-IsSound socket raw =
      or_refuse-Ensures Keeps s refused (parse_register_device_payload raw) Signaling.invalid_id
        (λ d. registered socket d s) (λ d e. registered-IsSound socket d (parsed_id-ne raw d e))

  free_index :
      (d e : Text)
      → (is_busy d s || is_busy e s) ≡ false
      → (get d s.rooms.by_device ≡ none) × (get e s.rooms.by_device ≡ none)
  free_index d e h = (
    get-by_device-eq_none v.consistent d (ground arith),
    get-by_device-eq_none v.consistent e (ground arith),
  )

  requested-IsSound :
      (rt : Runtime) (socket requester target token host_socket : Text)
      → IsUnused rt s
      → (target == requester) ≡ false
      → (is_busy requester s || is_busy target s) ≡ false
      → Keeps (settle s (requested rt socket requester target token host_socket s))
  unfolding get_room
  requested-IsSound rt socket requester target token host_socket (named, fresh) other free =
      let (c, h) = free_index requester target free in
      record {
        current = v.current;
        consistent =
            create_pending-IsConsistent v.consistent rt.uuid rt.now requester target socket named
              fresh (ground arith) c h;
      }

  pub connection_request-IsSound :
      (rt : Runtime) (socket : Text) (raw : Value)
      → IsUnused rt s
      → Keeps (connection_request rt socket raw s)
  unfolding connection_request
  connection_request-IsSound rt socket raw unused =
      bind-Ensures Keeps s refused (caller socket s) _ λ requester e.
        or_refuse-Ensures Keeps s refused (parse_connection_request_payload raw)
          Signaling.invalid_id _
          λ payload f.
            unless-Ensures Keeps s refused (payload.target_device_id == requester)
              Signaling.self_connect _
              λ other.
                unless-Ensures Keeps s refused
                  (is_busy requester s || is_busy payload.target_device_id s)
                  Signaling.already_in_session _
                  λ free.
                    bind-Ensures Keeps s refused (live_socket rt payload.target_device_id s) _
                      λ host_socket g.
                        requested-IsSound rt socket requester payload.target_device_id payload.token
                          host_socket unused other free

  pub connection_accepted_by-IsSound :
      (socket : Text) (raw : Value) → Keeps (connection_accepted_by socket raw s)
  unfolding connection_accepted_by
  connection_accepted_by-IsSound socket raw =
      bind-Ensures Keeps s refused (caller socket s) _ λ host e.
        or_refuse-Ensures Keeps s refused (parse_room_action_payload raw) Signaling.room_not_found _
          λ room_id f.
            or_refuse-Ensures Keeps s refused (get_room room_id s.rooms) Signaling.room_not_found _
              λ room g.
                unless-Ensures Keeps s refused
                  (not (room.host_device_id == host) || not (is_pending room.status))
                  Signaling.unauthorized _
                  λ allowed. record {
                    current = v.current;
                    consistent = accept-IsConsistent v.consistent room.id socket;
                  }

  pub connection_rejected_by-IsSound :
      (socket : Text) (raw : Value) → Keeps (connection_rejected_by socket raw s)
  unfolding connection_rejected_by
  connection_rejected_by-IsSound socket raw =
      bind-Ensures Keeps s refused (caller socket s) _ λ host e.
        or_refuse-Ensures Keeps s refused (parse_rejection_payload raw) Signaling.room_not_found _
          λ payload f.
            or_refuse-Ensures Keeps s refused (get_room payload.room_id s.rooms)
              Signaling.room_not_found _
              λ room g.
                unless-Ensures Keeps s refused (not (room.host_device_id == host))
                  Signaling.unauthorized _
                  λ allowed. record {
                    current = v.current;
                    consistent = remove-IsConsistent v.consistent room.id;
                  }

  pub disconnect_device-IsSound :
      (socket : Text) (raw : Value) → Keeps (disconnect_device socket raw s)
  unfolding disconnect_device
  disconnect_device-IsSound socket raw = bind-Ensures Keeps s refused (caller socket s) _ λ d e.
      or_refuse-Ensures Keeps s refused (addressed (parse_room_action_payload raw) d s)
        Signaling.room_not_found _
        λ room f.
          unless-Ensures Keeps s refused
            (not (room.client_device_id == d) && not (room.host_device_id == d))
            Signaling.unauthorized _
            λ allowed. record {
              current = v.current;
              consistent = remove-IsConsistent v.consistent room.id;
            }

  drop_room-IsSound : (socket : Text) (o : Option ConnectionRoom) → IsSound (drop_room socket s o).0
  drop_room-IsSound socket none = v
  drop_room-IsSound socket (some room) = record {
    current = v.current;
    consistent = remove-IsConsistent v.consistent room.id;
  }

drop_device-IsSound :
    (socket : Text) {s : SignalingServer} (o : Option Text)
    → IsSound s
    → IsSound (drop_device socket s o).0
drop_device-IsSound socket none v = v
drop_device-IsSound socket {s} (some d) v = drop_room-IsSound v socket (get_by_device d s.rooms)

pub socket_disconnect-IsSound :
    (socket : Text) {s : SignalingServer} → IsSound s → IsSound (socket_disconnect socket s).0
unfolding socket_disconnect
socket_disconnect-IsSound socket {s} v =
    drop_device-IsSound socket (unregister_socket socket s.registry).0
      (record { current = unregister_socket-IsCurrent socket v.current; consistent = v.consistent })
