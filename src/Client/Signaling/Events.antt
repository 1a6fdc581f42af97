-- ===== src/Client/Signaling/Events.antt =====
-- src/services/SignalingService.ts: the listeners on the socket, and the request timer.
use lantern_remote.Common.{List, [], ◌∷◌, Option, none, some, Text}
use lantern_remote.Value.{Value}
use lantern_remote.Shared.Signaling
use lantern_remote.Server.Handlers.{timeout, SignalingAck, ok}
use lantern_remote.Client.Signaling.Inbound.{
  parse_incoming, parse_decision, parse_peer_disconnected, parse_session_payload, parse_ice_payload,
}
use lantern_remote.Client.Signaling.{
  SignalingService, Call, on_connected, on_disconnected, on_unavailable, on_incoming, on_accepted,
  on_rejected, on_peer_disconnected, on_offer, on_answer, on_ice_candidate, Action, call, send,
  registration_of, clear_request_timer, true, false,
}

-- The events of a socket; `register_ack` is the answer to the registration.
pub data SocketEvent : Type 0 where
  connect_event connect_error disconnect_event : SocketEvent
  register_ack : Option SignalingAck → SocketEvent
  incoming_event accepted_event rejected_event : Value → SocketEvent
  peer_disconnected_event offer_event answer_event candidate_event : Value → SocketEvent

-- `if (payload) listener(payload)`
abbrev pub if_valid {ℓ} : {A : Type ℓ} → Option A → (A → Call) → List Action
if_valid none f = []
if_valid (some a) f = call (f a) ∷ []

-- `digits`, which the listeners close over, is the device id of `connect`.
abbrev pub registering : Option Text → List Action
registering none = []
registering (some digits) = send (registration_of digits) ∷ []

abbrev pub registration_call : Option SignalingAck → Call
registration_call (some (ok room_id)) = on_connected
registration_call _ = on_unavailable Signaling.not_registered

unfoldable pub on_event : SocketEvent → SignalingService → SignalingService × List Action
on_event connect_event s = (record s { socket = some true }, registering s.device_id)
on_event connect_error s = (s, call (on_unavailable Signaling.server_unavailable) ∷ [])
on_event disconnect_event s = (record s { socket = some false }, call on_disconnected ∷ [])
on_event (register_ack reply) s = (s, call (registration_call reply) ∷ [])
on_event (incoming_event raw) s = (s, if_valid (parse_incoming raw) on_incoming)
on_event (accepted_event raw) s = (clear_request_timer s, if_valid (parse_decision raw) on_accepted)
on_event (rejected_event raw) s = (clear_request_timer s, if_valid (parse_decision raw) on_rejected)
on_event (peer_disconnected_event raw) s =
    (clear_request_timer s, if_valid (parse_peer_disconnected raw) on_peer_disconnected)
on_event (offer_event raw) s = (s, if_valid (parse_session_payload raw Signaling.offer) on_offer)
on_event (answer_event raw) s = (s, if_valid (parse_session_payload raw Signaling.answer) on_answer)
on_event (candidate_event raw) s = (s, if_valid (parse_ice_payload raw) on_ice_candidate)

-- The callback of the request timer.
unfoldable pub request_timer_fires : SignalingService → SignalingService × List Action
request_timer_fires s = (
  clear_request_timer s,
  call (on_peer_disconnected (record { room_id = []; reason = timeout })) ∷ [],
)
