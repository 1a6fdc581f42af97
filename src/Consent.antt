-- ===== src/Consent.antt =====
-- The consent to a session, over server/socket/handlers.ts and the window of a host,
-- src/hooks/useSignalingSession.ts: the server, to which any socket may send anything at any time,
-- and one socket, behind which stands this window.
pub mod Given
mod Tests
use lantern_remote.Common.{◌≡◌, ◌≢◌, true, Bool, List, [], ◌∷◌, Option, some, Text}
use lantern_remote.Value.{Number, Value, read}
use lantern_remote.Shared.RemoteInput.{RemoteInputMessage}
use lantern_remote.Server.Handlers.{Runtime, SignalingServer, started}
use lantern_remote.Server.Handlers.Step
use lantern_remote.Server.Handlers.Step.{Event, connection_accepted_event, IsUnused, sweep}
use lantern_remote.Client.Signaling.{accept_room, request_body}
use lantern_remote.Client.Store.{IncomingRequest}
use lantern_remote.Client.Session
use lantern_remote.Client.Session.Run.{SessionEvent, accept_begin, step, run}
use lantern_remote.Client.Session.Run.Validated.{is_checked}

module _ (parse_json : Text → Option Value) (round : Number → Number)
    (summarize : RemoteInputMessage → Text) where
  -- The window has called for the acceptance of the room.
  pub data Asked (room_id : Text) : List SessionEvent → Type 0 where
    here :
        (e : SessionEvent) (past : List SessionEvent)
        → (step parse_json round summarize e (run parse_json round summarize past)).1
          ≡ Session.accept_room room_id ∷ []
        → Asked room_id (e ∷ past)
    there :
        (e : SessionEvent) {past : List SessionEvent}
        → Asked room_id past
        → Asked room_id (e ∷ past)

  -- What the socket of the window may send: an acceptance only if the window has called for it, as
  -- the signaling service writes it; of everything else nothing is assumed.
  abbrev pub Sends : List SessionEvent → Event → Type 0
  Sends past (connection_accepted_event raw) =
      (room_id : Text) × (raw ≡ request_body (accept_room room_id)) × Asked room_id past
  Sends past _ = Unit {0}

  -- The server, and the events of the window behind the socket, the last one first.
  pub data Joint (window : Text) : SignalingServer → List SessionEvent → Type 0 where
    starts : Joint window started []
    acts :
        {s : SignalingServer} {past : List SessionEvent} (e : SessionEvent)
        → Joint window s past
        → Joint window s (e ∷ past)
    stranger :
        {s : SignalingServer} {past : List SessionEvent} (rt : Runtime) (socket : Text) (e : Event)
        → socket ≢ window
        → IsUnused rt s
        → Joint window s past
        → Joint window (Step.step rt socket e s) past
    sends :
        {s : SignalingServer} {past : List SessionEvent} (rt : Runtime) (e : Event)
        → Sends past e
        → IsUnused rt s
        → Joint window s past
        → Joint window (Step.step rt window e s) past
    sweeps :
        {s : SignalingServer} {past : List SessionEvent} (rt : Runtime)
        → Joint window s past
        → Joint window (sweep rt s).0 past

  -- The user has accepted a request for the room while it was shown, and before it was shown the main
  -- process had found its code valid.
  pub data Consented (room_id : Text) : List SessionEvent → Type 0 where
    given :
        (q : IncomingRequest) (past : List SessionEvent)
        → q.room_id ≡ room_id
        → (run parse_json round summarize past).store.incoming ≡ some q
        → is_checked q past ≡ true
        → Consented room_id (accept_begin ∷ past)
    earlier :
        (e : SessionEvent) {past : List SessionEvent}
        → Consented room_id past
        → Consented room_id (e ∷ past)
