-- ===== src/Server/Handlers/Step/Moves.antt =====
-- server/socket/handlers.ts: what each listener does to a room.
use lantern_remote.Server.Handlers.Step.Move.{
  SpeaksFor, Accepts, Move, keeps, opens, admits, closes,
}
use lantern_remote.Common.{
  ◌≡◌, ◌∙◌, ap, sym, refl, true, not, ◌&&◌, ◌||◌, inl, inr, Option, none, some, arith, Text,
  Text-discrete, ◌==◌, present-eq_some, Bool-cases,
}
use lantern_remote.Dict.{get, get-put}
use lantern_remote.Value.{Value}
use lantern_remote.Shared.Signaling
use lantern_remote.Shared.Signaling.{
  SignalingErrorCode, parse_register_device_payload, parse_connection_request_payload,
  parse_room_action_payload, parse_rejection_payload,
}
use lantern_remote.Server.Rooms.{
  ConnectionRoom, is_pending, admitted, get_room, get_by_device, remove, create_pending, accept,
  new_room,
}
use lantern_remote.Server.Rooms.Consistency.{get_by_device_sound}
use lantern_remote.Server.Rooms.Expiry.{get_room-remove}
use lantern_remote.Server.Registry.{get_socket, get_device_id, unregister_socket}
use lantern_remote.Server.Handlers.{
  Runtime, SignalingServer, Outcome, caller, live_socket, ended_by, end_room,
}
use lantern_remote.Server.Handlers.Ensures.{
  bind-Ensures, or_refuse-Ensures, unless-Ensures, caller-eq_pass, refusal,
}
use lantern_remote.Server.Handlers.Session.{
  register_device, is_busy, connection_request, connection_accepted_by, connection_rejected_by,
  addressed, disconnect_device, drop_room, drop_device, socket_disconnect,
}
use lantern_remote.Server.Handlers.Step.{
  Event, register_device_event, connection_accepted_event, IsUnused,
}
use lantern_remote.Server.Handlers.Step.Invariant.{IsSound}
use lantern_remote.Server.Handlers.Step.Safety.{IsMember}

module _ (socket : Text) (e : Event) {s : SignalingServer} (v : IsSound s) (id : Text) where
  abbrev Moves : SignalingServer → Type 0
  Moves s' = Move socket e s (get_room id s.rooms) (get_room id s'.rooms)

  abbrev MovesTo : Outcome → Type 0
  MovesTo o = Moves o.server

  stays : (code : SignalingErrorCode) → MovesTo (refusal s code)
  stays code = keeps refl

  -- A removal by a member, of a room that is stored.
  removed :
      (r : ConnectionRoom) (d : Text)
      → get_room r.id s.rooms ≡ some r
      → IsMember d r
      → SpeaksFor socket e s d
      → Moves (record s { rooms = (remove r.id s.rooms).1 })
  removed r d there member speaks = elim (Text-discrete r.id id) [
    | yes p ↦
        closes r d (ground (arith, p, there)) member speaks
          (ground (arith, p, get_room-remove r.id id s.rooms))
    | no n ↦ keeps (ground (arith, n, get_room-remove r.id id s.rooms))
  ]

  own_key :
      (k : Text) (r : ConnectionRoom) → get_room k s.rooms ≡ some r → get_room r.id s.rooms ≡ some r
  unfolding get_room
  own_key k r h = ground (arith, v.consistent.keyed k r h)

  keyed_id : (k : Text) (r : ConnectionRoom) → get_room k s.rooms ≡ some r → r.id ≡ k
  unfolding get_room
  keyed_id k r h = ground (arith, v.consistent.keyed k r h)

  pub register_device-Moves :
      (raw : Value) → e ≡ register_device_event raw → MovesTo (register_device socket raw s)
  unfolding register_device
  register_device-Moves raw same =
      or_refuse-Ensures MovesTo s stays (parse_register_device_payload raw) Signaling.invalid_id _
        λ d f. ends d (inr (raw, same, f)) (get_socket d s.registry) (get_by_device d s.rooms) refl
    where
      ends :
          (d : Text)
          → SpeaksFor socket e s d
          → (current : Option Text) (o : Option ConnectionRoom) → get_by_device d s.rooms ≡ o
          → Moves (end_room s d (ended_by socket current o)).0
      ends d speaks none o h = keeps refl
      ends d speaks (some previous) none h = keeps refl
      ends d speaks (some previous) (some room) h = elim (Bool-cases (previous == socket)) [
        | inl same ↦ rw same (keeps refl)
        | inr differ ↦
            let (there, member) = get_by_device_sound v.consistent d room h in
            rw differ (removed room d there member speaks)
      ]

  pub connection_request-Moves :
      (rt : Runtime) (raw : Value) → IsUnused rt s → MovesTo (connection_request rt socket raw s)
  unfolding connection_request create_pending get_room new_room
  connection_request-Moves rt raw (named, fresh) =
      bind-Ensures MovesTo s stays (caller socket s) _ λ requester f.
        or_refuse-Ensures MovesTo s stays (parse_connection_request_payload raw)
          Signaling.invalid_id _
          λ payload g.
            unless-Ensures MovesTo s stays (payload.target_device_id == requester)
              Signaling.self_connect _
              λ other.
                unless-Ensures MovesTo s stays
                  (is_busy requester s || is_busy payload.target_device_id s)
                  Signaling.already_in_session _
                  λ free.
                    bind-Ensures MovesTo s stays (live_socket rt payload.target_device_id s) _
                      λ host_socket h.
                        let room =
                          new_room rt.uuid rt.now requester payload.target_device_id socket in
                        elim (Text-discrete rt.uuid id) [
                          | yes p ↦
                              opens room (ground (arith, p, fresh))
                                (ground (arith, p, get-put id rt.uuid room s.rooms.rooms)) refl
                                (inl (caller-eq_pass socket s requester f).0)
                          | no n ↦ keeps (ground (arith, n, get-put id rt.uuid room s.rooms.rooms))
                        ]

  admitted_by :
      (r : ConnectionRoom)
      → get_room r.id s.rooms ≡ some r
      → is_pending r.status ≡ true
      → SpeaksFor socket e s r.host_device_id
      → Accepts e r.id
      → Moves (record s { rooms = (accept r.id socket s.rooms).1 })
  unfolding accept get_room
  admitted_by r there waits speaks asks =
      rw (there, waits)
        (elim (Text-discrete r.id id) [
          | yes p ↦
              admits r (ground (arith, p, there)) (ground arith) speaks asks
                (ground (arith, p, get-put id r.id (admitted r socket) s.rooms.rooms))
          | no n ↦ keeps (ground (arith, n, get-put id r.id (admitted r socket) s.rooms.rooms))
        ])

  pub connection_accepted_by-Moves :
      (raw : Value)
      → e ≡ connection_accepted_event raw
      → MovesTo (connection_accepted_by socket raw s)
  unfolding connection_accepted_by
  connection_accepted_by-Moves raw same = bind-Ensures MovesTo s stays (caller socket s) _ λ host f.
      or_refuse-Ensures MovesTo s stays (parse_room_action_payload raw) Signaling.room_not_found _
        λ room_id g.
          or_refuse-Ensures MovesTo s stays (get_room room_id s.rooms) Signaling.room_not_found _
            λ room h.
              unless-Ensures MovesTo s stays
                (not (room.host_device_id == host) || not (is_pending room.status))
                Signaling.unauthorized _
                λ allowed.
                  admitted_by room (own_key room_id room h) (ground (arith, allowed))
                    (inl (ground (arith, allowed, caller-eq_pass socket s host f)))
                    (raw, same, g ∙ ap some (sym (keyed_id room_id room h)))

  pub connection_rejected_by-Moves : (raw : Value) → MovesTo (connection_rejected_by socket raw s)
  unfolding connection_rejected_by
  connection_rejected_by-Moves raw = bind-Ensures MovesTo s stays (caller socket s) _ λ host f.
      or_refuse-Ensures MovesTo s stays (parse_rejection_payload raw) Signaling.room_not_found _
        λ payload g.
          or_refuse-Ensures MovesTo s stays (get_room payload.room_id s.rooms)
            Signaling.room_not_found _
            λ room h.
              unless-Ensures MovesTo s stays (not (room.host_device_id == host))
                Signaling.unauthorized _
                λ allowed.
                  removed room host (own_key payload.room_id room h) (ground (arith, allowed))
                    (inl (caller-eq_pass socket s host f).0)

  -- The room that a disconnect request is about is stored under its own id.
  addressed_stored :
      (o : Option Text) (d : Text) (room : ConnectionRoom)
      → addressed o d s ≡ some room
      → get_room room.id s.rooms ≡ some room
  addressed_stored none d room h = (get_by_device_sound v.consistent d room h).0
  addressed_stored (some room_id) d room h = own_key room_id room h

  pub disconnect_device-Moves : (raw : Value) → MovesTo (disconnect_device socket raw s)
  unfolding disconnect_device
  disconnect_device-Moves raw = bind-Ensures MovesTo s stays (caller socket s) _ λ d f.
      or_refuse-Ensures MovesTo s stays (addressed (parse_room_action_payload raw) d s)
        Signaling.room_not_found _
        λ room g.
          unless-Ensures MovesTo s stays
            (not (room.client_device_id == d) && not (room.host_device_id == d))
            Signaling.unauthorized _
            λ allowed.
              removed room d (addressed_stored (parse_room_action_payload raw) d room g)
                (ground (arith, allowed)) (inl (caller-eq_pass socket s d f).0)

  unregistered :
      (d : Text)
      → (unregister_socket socket s.registry).0 ≡ some d
      → get_device_id socket s.registry ≡ some d
  unfolding unregister_socket get_device_id
  unregistered d h = ground (arith, present-eq_some (get socket s.registry.by_socket_id) d)

  pub socket_disconnect-Moves : Moves (socket_disconnect socket s).0
  unfolding socket_disconnect
  socket_disconnect-Moves = drops (unregister_socket socket s.registry).0 refl
    where
      ends :
          (d : Text)
          → SpeaksFor socket e s d
          → (o : Option ConnectionRoom) → get_by_device d s.rooms ≡ o
          → Moves
              (drop_room socket
                (record s { registry = (unregister_socket socket s.registry).1 })
                o).0
      ends d speaks none h = keeps refl
      ends d speaks (some room) h =
          let (there, member) = get_by_device_sound v.consistent d room h in
          removed room d there member speaks

      drops :
          (o : Option Text)
          → (unregister_socket socket s.registry).0 ≡ o
          → Moves
              (drop_device socket
                (record s { registry = (unregister_socket socket s.registry).1 })
                o).0
      drops none h = keeps refl
      drops (some d) h = ends d (inl (unregistered d h)) (get_by_device d s.rooms) refl
