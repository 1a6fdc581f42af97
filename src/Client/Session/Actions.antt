-- ===== src/Client/Session/Actions.antt =====
-- src/hooks/useSignalingSession.ts: what the user does.
use lantern_remote.Common.{true, false, List, [], ◌∷◌, ◌++◌, Option, none, some, Text}
use lantern_remote.Shared.Signaling
use lantern_remote.Client.Store.{
  ConnectionStatus, waiting_for_approval, negotiating, client, host, IncomingRequest, reset,
}
use lantern_remote.Client.Session.{
  Session, Command, revoke_token, consume_token, close_peer, release_room, request_connection,
  accept_room, reject_room, add_history, capture_stopped, stop_capture, error_message,
  arm_negotiation_timer, Ending, returned, thrown,
}

unfoldable pub connect_to_remote_begin : Session → Session × List Command
connect_to_remote_begin s = (
  record s {
    store = record s.store {
      error = none;
      role = some client;
      status = ConnectionStatus.connecting;
    };
  },
  request_connection s.store.remote_id s.store.token_input ∷ [],
)

-- `target` is the remote id that the store had at the beginning.
unfoldable pub connected_to_remote : (target room_id : Text) → Session → Session × List Command
connected_to_remote target room_id s = (
  record s { store = record s.store { room_id = some room_id; status = waiting_for_approval } },
  add_history target client true ∷ [],
)

unfoldable pub connect_to_remote_failed :
    (target : Text) (error : Option Text) → Session → Session × List Command
connect_to_remote_failed target error s = (
  record s {
    store = record s.store {
      role = none;
      status = ConnectionStatus.failed;
      error = some (error_message error Signaling.invalid_id);
    };
  },
  add_history target client false ∷ [],
)

abbrev pub accept_request : Option IncomingRequest → List Command
accept_request none = []
accept_request (some incoming) = accept_room incoming.room_id ∷ []

unfoldable pub accept_incoming_begin : Session → Session × List Command
accept_incoming_begin s = (s, accept_request s.store.incoming)

-- The server has acknowledged the acceptance of `incoming`, or it has not.
unfoldable pub accept_incoming_acked : IncomingRequest → Ending → Session → Session × List Command
accept_incoming_acked incoming returned s = (s, consume_token ∷ [])
accept_incoming_acked incoming (thrown error) s = (
  record s {
    store = record s.store {
      status = ConnectionStatus.failed;
      error = some (error_message error Signaling.room_not_found);
    };
  },
  add_history incoming.from_device_id host false ∷ [],
)

-- The main process has consumed the code.
unfoldable pub accept_incoming_end : IncomingRequest → Session → Session × List Command
accept_incoming_end incoming s = (
  arm_negotiation_timer (record s {
    store = record s.store {
      token_code = none;
      token_expires_at = none;
      incoming = none;
      status = negotiating;
      error = none;
    };
  }),
  add_history incoming.from_device_id host true ∷ [],
)

abbrev pub reject_request : Option IncomingRequest → List Command
reject_request none = []
reject_request (some incoming) = reject_room incoming.room_id Signaling.declined ∷ []

unfoldable pub reject_incoming_begin : Session → Session × List Command
reject_incoming_begin s = (s, reject_request s.store.incoming)

-- Whether the server has acknowledged it or not.
unfoldable pub reject_incoming_end : Session → Session × List Command
reject_incoming_end s = (
  record {
    store = record (capture_stopped s.store) {
      incoming = none;
      room_id = none;
      status = ConnectionStatus.idle;
    };
    negotiation_timer = false;
  },
  stop_capture s.store ++ (close_peer ∷ []),
)

unfoldable pub disconnect_session_begin : Session → Session × List Command
disconnect_session_begin s = (
  record { store = capture_stopped s.store; negotiation_timer = false },
  stop_capture s.store ++ (revoke_token ∷ close_peer ∷ release_room s.store.room_id ∷ []),
)

unfoldable pub disconnect_session_end : Session → Session × List Command
disconnect_session_end s = (record s { store = reset s.store }, [])
