-- ===== src/Client/WebRtc/Handlers.antt =====
-- src/services/WebRTCService.ts: local tracks, and the handlers of connections and of channels.
use lantern_remote.Common.{
  ℕ, suc, Bool, false, not, ◌||◌, List, [], ◌∷◌, map, Option, none, some, Text, eqb, ◌==◌, keep,
  if◌then◌else◌,
}
use lantern_remote.Client.Store.{RtcState, IceState}
use lantern_remote.Client.WebRtc.{
  WebRtc, Action, add_track, remove_track, with_peer, ChannelKind, kind_of_label, wire, notices,
  on_connection_state, on_ice_state, on_ice_candidate, on_remote_stream, on_open, on_message,
}

-- What `getSenders` gives: a sender's number and its track.
abbrev pub Senders : Type 0
Senders = List (ℕ × Option Text)

abbrev pub known : Senders → Text → Bool
known [] track = false
known ((n, none) ∷ senders) track = known senders track
known ((n, some t) ∷ senders) track = t == track || known senders track

abbrev pub new_tracks : Senders → (tracks : List Text) → List Text
new_tracks senders tracks = keep (λ t. not (known senders t)) tracks

abbrev pub add_local_stream : Senders → (tracks : List Text) → WebRtc → List Action
add_local_stream senders tracks s =
    with_peer (λ pc. map (add_track pc) (new_tracks senders tracks)) s

-- An error of `removeTrack` is caught.
abbrev pub remove_local_stream : Senders → WebRtc → List Action
remove_local_stream senders s = elim s.pc [
  | none ↦ []
  | some pc ↦ map (λ (n, t). remove_track pc n) senders
]

-- The events of a connection, and those of a channel: `none` is a binary frame.
pub data PeerEvent : Type 0 where
  connection_state_change : RtcState → PeerEvent
  ice_state_change : IceState → PeerEvent
  ice_candidate : (candidate : Option Text) → PeerEvent
  data_channel : (label : Text) → PeerEvent
  track : (stream : Option Text) → PeerEvent

pub data ChannelEvent : Type 0 where
  opened : ChannelEvent
  message : (frame : Option Text) → ChannelEvent

abbrev pub member : ℕ → List ℕ → Bool
member n [] = false
member n (m ∷ ms) = eqb m n || member n ms

-- A channel that arrives with the next number.
unfoldable pub arrives : Option ChannelKind → WebRtc → WebRtc
unfolding wire
arrives none s = record s { next = suc s.next }
arrives (some kind) s = wire kind s.next (record s { next = suc s.next })

-- The handlers that `ensurePeerConnection` sets.
unfoldable pub peer_handlers : PeerEvent → WebRtc → WebRtc × List Action
unfolding arrives
peer_handlers (connection_state_change state) s = (s, notices s (on_connection_state state))
peer_handlers (ice_state_change state) s = (s, notices s (on_ice_state state))
peer_handlers (ice_candidate none) s = (s, [])
peer_handlers (ice_candidate (some c)) s = (s, notices s (on_ice_candidate c))
peer_handlers (data_channel label) s = (arrives (kind_of_label label) s, [])
peer_handlers (track none) s = (s, [])
peer_handlers (track (some stream)) s = (s, notices s (on_remote_stream stream))

-- An event of a connection whose handlers are off goes nowhere.
unfoldable pub on_peer : (pc : ℕ) → PeerEvent → WebRtc → WebRtc × List Action
unfolding peer_handlers
on_peer pc e s = if member pc s.hooked then peer_handlers e s else (s, [])

abbrev pub wired_as : ℕ → List (ℕ × ChannelKind) → Option ChannelKind
wired_as c [] = none
wired_as c ((n, kind) ∷ wired) = let rest = wired_as c wired in if eqb n c then some kind else rest

abbrev pub channel_notices : ChannelEvent → WebRtc → Option ChannelKind → List Action
channel_notices e s none = []
channel_notices opened s (some kind) = notices s (on_open kind)
channel_notices (message none) s (some kind) = []
channel_notices (message (some frame)) s (some kind) = notices s (on_message kind frame)

unfoldable pub on_channel : (channel : ℕ) → ChannelEvent → WebRtc → List Action
on_channel channel e s = channel_notices e s (wired_as channel s.wired)
