-- ===== src/Client/Signaling/Requests.antt =====
-- src/services/SignalingService.ts: what the server makes of the client's requests, and the socket.
use lantern_remote.Common.{
  ℕ, ◌+◌, ◌≤◌, ◌≡◌, refl, Bool, true, false, List, [], ◌∷◌, Option, none, some, arith, Text, length,
  Option-cases, present, inl, text, inr, Text-discrete,
}
use lantern_remote.Value.{read, string}
use lantern_remote.Shared.DeviceId.{parse_device_id}
use lantern_remote.Shared.DeviceId.RoundTrip.{parse-parse, parse_device_id_sound}
use lantern_remote.Shared.Signaling.Accepts.{present-parse}
use lantern_remote.Shared.ConnectionToken.{is_valid_token_format}
use lantern_remote.Shared.Signaling
use lantern_remote.Shared.Signaling.{
  parse_register_device_payload, parse_connection_request_payload, parse_room_action_payload,
  parse_rejection_payload, ConnectionRejectionReason, rejection_reason,
}
use lantern_remote.Server.Handlers.{pass, SignalingAck, ok}
use lantern_remote.Client.Signaling.{
  SignalingService, Request, Action, open_socket, close, connect, connection_to, accept_room,
  disconnect_room, reject_room, request_body, request_connection_begin, request_connection_end,
  disconnect, connect_parsed,
}

token-present :
    (token : Text) → is_valid_token_format (string token) ≡ true → present (some token) ≡ some token
unfolding is_valid_token_format
token-present [] h = absurd (cc)
token-present (c ∷ t) h = refl

pub parse-asked :
    (d token : Text)
    → parse_device_id d ≡ some d
    → is_valid_token_format (string token) ≡ true
    → parse_connection_request_payload (request_body (connection_to d token))
      ≡ some (record { target_device_id = d; token = token })
unfolding parse_connection_request_payload request_body read
parse-asked [] token h k = absurd (omega (arith, (parse_device_id_sound [] [] h).0))
parse-asked (c ∷ d) token h k = rw (present-parse (c ∷ d) h, token-present token k, k) refl

-- A request that the client sends passes the server's validator, which reads the device as the
-- client has parsed it, and the code as it was typed.
pub parse-request_connection :
    (target token : Text) (s : SignalingService) (request : Request)
    → request_connection_begin target token s ≡ pass request
    → (d : Text) × (parse_device_id target ≡ some d)
      × (parse_connection_request_payload (request_body request)
          ≡ some (record { target_device_id = d; token = token }))
unfolding request_connection_begin
parse-request_connection target token s request h = elim (Option-cases (parse_device_id target)) [
  | inl e ↦ absurd (ground arith)
  | inr (d, e) ↦ (d, e, ground (arith, parse-parse target d e, parse-asked d token))
]

-- The server reads the room of an acceptance, a rejection and a departure, and the reason of a
-- rejection, for every id of a length that it allows.
pub parse-room_requests :
    (room_id : Text) (reason : ConnectionRejectionReason)
    → 8 ≤ length room_id
    → length room_id ≤ 80
    → (parse_room_action_payload (request_body (accept_room room_id)) ≡ some room_id)
      × (parse_room_action_payload (request_body (disconnect_room room_id)) ≡ some room_id)
      × (parse_rejection_payload (request_body (reject_room room_id reason))
          ≡ some (record { room_id = room_id; reason = reason }))
unfolding request_body parse_room_action_payload parse_rejection_payload rejection_reason read text
    Text-discrete
parse-room_requests room_id Signaling.declined lo hi = ground arith
parse-room_requests room_id Signaling.invalid_token lo hi = ground arith

-- How many sockets a list of actions opens, or closes.
abbrev pub opens : List Action → ℕ
opens [] = 0
opens (open_socket url ∷ rest) = 1 + opens rest
opens (_ ∷ rest) = opens rest

abbrev pub closes : List Action → ℕ
closes [] = 0
closes (close ∷ rest) = 1 + closes rest
closes (_ ∷ rest) = closes rest

abbrev pub sockets : Option Bool → ℕ
sockets none = 0
sockets (some connected) = 1

-- The sockets opened and not closed stay those that are held, and a second call opens none.
abbrev pub IsSingle :
    (SignalingService → SignalingService × List Action) → SignalingService → Type 0
IsSingle f s =
    let (s', actions) = f s in
    (sockets s.socket + opens actions ≡ sockets s'.socket + closes actions) × (opens (f s').1 ≡ 0)

connect_parsed-IsSingle :
    (url : Text) (o : Option Text) (socket : Option Bool) (d : Option Text) (t : Bool)
    → IsSingle (connect_parsed url o) (record { socket = socket; device_id = d; request_timer = t })
unfolding disconnect
connect_parsed-IsSingle url none socket d t = (omega arith, refl)
connect_parsed-IsSingle url (some e) none d t = ground arith
connect_parsed-IsSingle url (some e) (some b) none t = ground arith
connect_parsed-IsSingle url (some e) (some true) (some d) t = ground arith
connect_parsed-IsSingle url (some e) (some false) (some d) t = ground arith

-- Whatever `connect` is given, the number of sockets opened and not closed stays that of the sockets
-- the service holds, and a second call with the same arguments opens none.
pub connect-IsSingle : (url id : Text) (s : SignalingService) → IsSingle (connect url id) s
unfolding connect
connect-IsSingle url id s =
    connect_parsed-IsSingle url (present (parse_device_id id)) s.socket s.device_id s.request_timer

-- A request that ends with a room has it from the server's acknowledgement, and starts the timer.
pub request_connection_end-timer :
    (reply : Option SignalingAck) (s : SignalingService) (room_id : Text)
    → (request_connection_end reply s).1 ≡ pass room_id
    → (reply ≡ some (ok (some room_id)))
      × ((request_connection_end reply s).0 ≡ record s { request_timer = true })
unfolding request_connection_end
request_connection_end-timer reply s room_id h = ground arith
