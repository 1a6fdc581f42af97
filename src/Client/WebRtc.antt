-- ===== src/Client/WebRtc.antt =====
-- src/services/WebRTCService.ts: the peer connection and its channels. A connection or a channel of
-- the browser is named by a number that is given out once.
pub mod IceServers
pub mod Handlers
pub mod Run
use lantern_remote.Common.{
  ℕ, suc, ◌+◌, Bool, true, false, not, ◌&&◌, List, [], ◌∷◌, ◌++◌, map, Option, none, some, Text,
  text, eqb, ◌==◌, keep, present, if◌then◌else◌, ◌||◌,
}
use lantern_remote.Shared.Signaling.{SdpType, offer, answer}
use lantern_remote.Client.Store.{RtcState, IceState}
use IceServers.{build_ice_servers}

pub data ChannelKind : Type 0 where
  control remote_input clipboard : ChannelKind

abbrev pub label_text : ChannelKind → Text
unfolding text
label_text control = text "control"
label_text remote_input = text "remote-input"
label_text clipboard = text "clipboard"

-- The label that the other side has given to a channel.
abbrev pub kind_of_label : Text → Option ChannelKind
kind_of_label label =
    if label == label_text control
    then some control
    else (if label == label_text remote_input
        then some remote_input
        else (if label == label_text clipboard then some clipboard else none))

-- The calls of the handlers of `WebRTCEvents`.
pub data Notice : Type 0 where
  on_connection_state : RtcState → Notice
  on_ice_state : IceState → Notice
  on_ice_candidate : (candidate : Text) → Notice
  on_remote_stream : (stream : Text) → Notice
  on_open : ChannelKind → Notice
  on_message : ChannelKind → (frame : Text) → Notice

pub record SessionDescription : Type 0 where
  pub sdp : Text
  pub type_of : SdpType

-- The calls of the browser, and an error that the caller gets instead of a result.
pub data Action : Type 0 where
  new_peer : (pc : ℕ) (urls : List Text) → Action
  create_channel : (pc channel : ℕ) → ChannelKind → Action
  make_offer make_answer : (pc : ℕ) → Action
  set_local : (pc : ℕ) → SdpType → (sdp : Text) → Action
  set_remote : (pc : ℕ) → SdpType → (sdp : Text) → Action
  add_candidate : (pc : ℕ) (candidate : Text) → Action
  add_track : (pc : ℕ) (track : Text) → Action
  remove_track : (pc sender : ℕ) → Action
  send_on : (channel : ℕ) (frame : Text) → Action
  close_channel close_peer : ℕ → Action
  notify : Notice → Action
  returns : SessionDescription → Action
  throws : (error : Text) → Action

-- The fields of the service, the next number, and the handlers that are set on browser objects:
-- connections, and channels with what they were taken for.
pub record WebRtc : Type 0 where
  pub pc : Option ℕ
  pub control_channel : Option ℕ
  pub input_channel : Option ℕ
  pub clipboard_channel : Option ℕ
  pub events : Notice → Bool
  pub settings_stun_servers : Text
  pub next : ℕ
  pub hooked : List ℕ
  pub wired : List (ℕ × ChannelKind)

abbrev pub new_service : WebRtc
new_service = record {
  pc = none;
  control_channel = none;
  input_channel = none;
  clipboard_channel = none;
  events = λ n. false;
  settings_stun_servers = [];
  next = 0;
  hooked = [];
  wired = [];
}

-- `this.events.onX?.(…)`: `events` tells which handlers are given.
abbrev pub notices : WebRtc → Notice → List Action
notices s n = if s.events n then notify n ∷ [] else []

abbrev pub slot : ChannelKind → WebRtc → Option ℕ
slot control s = s.control_channel
slot remote_input s = s.input_channel
slot clipboard s = s.clipboard_channel

-- A channel into its field, with its handlers set: `wireControlChannel` and its two kin.
unfoldable pub wire : ChannelKind → ℕ → WebRtc → WebRtc
wire control c s = record s { control_channel = some c; wired = (c, control) ∷ s.wired }
wire remote_input c s = record s { input_channel = some c; wired = (c, remote_input) ∷ s.wired }
wire clipboard c s = record s { clipboard_channel = some c; wired = (c, clipboard) ∷ s.wired }

-- `toSessionDescription`, on the `sdp` of a local description, if there is one.
abbrev pub empty_description : Text
unfolding text
empty_description = text "Peer connection produced an empty session description."

abbrev pub to_session_description : SdpType → Option Text → Action
to_session_description t sdp = elim (present sdp) [
  | none ↦ throws empty_description
  | some s ↦ returns (record { sdp = s; type_of = t })
]

abbrev pub no_peer : Text
unfolding text
no_peer = text "No active peer connection for this session."

-- `requirePeerConnection`, and what is done with the connection.
abbrev pub with_peer : (ℕ → List Action) → WebRtc → List Action
with_peer f s = elim s.pc [ none ↦ throws no_peer ∷ [] | some pc ↦ f pc ]

-- `sendOnChannel`: `sends` is whether the channel is open and its `send` does not throw.
unfoldable pub send_on_channel : (sends : ℕ → Bool) → Option ℕ → Text → Bool × List Action
send_on_channel sends none frame = (false, [])
send_on_channel sends (some c) frame = if sends c then (true, send_on c frame ∷ []) else (false, [])

abbrev pub close_slot : Option ℕ → List Action
close_slot none = []
close_slot (some c) = close_channel c ∷ []

abbrev pub without : ℕ → List ℕ → List ℕ
without pc pcs = keep (λ p. not (eqb p pc)) pcs

unfoldable pub close : WebRtc → WebRtc × List Action
close s =
    let channels =
      close_slot s.control_channel
      ++ (close_slot s.input_channel ++ close_slot s.clipboard_channel) in
    let cleared = record s {
      control_channel = none;
      input_channel = none;
      clipboard_channel = none;
    } in
    elim s.pc [
      | none ↦ (cleared, channels)
      | some pc ↦ (
        record cleared { pc = none; hooked = without pc s.hooked },
        channels ++ (close_peer pc ∷ []),
      )
    ]

-- `ensurePeerConnection`: the connection, new if there was none.
unfoldable pub ensure_peer :
    (trim : Text → Text) (env : Option Text) → WebRtc → WebRtc × ℕ × List Action
ensure_peer trim env s = elim s.pc [
  | some pc ↦ (s, pc, [])
  | none ↦ (
    record s { pc = some s.next; hooked = s.next ∷ s.hooked; next = suc s.next },
    s.next,
    new_peer s.next (build_ice_servers trim env s.settings_stun_servers) ∷ [],
  )
]

-- A channel that this side opens.
unfoldable pub open_channel : ChannelKind → (pc : ℕ) → WebRtc → WebRtc × List Action
unfolding wire
open_channel kind pc s =
    (wire kind s.next (record s { next = suc s.next }), create_channel pc s.next kind ∷ [])

abbrev pub is_none : Option ℕ → Bool
is_none none = true
is_none (some n) = false

-- The three channels of a connection that this side has made.
unfoldable pub open_channels : (pc : ℕ) → WebRtc → WebRtc × List Action
unfolding open_channel
open_channels pc s =
    let (s1, first) = open_channel control pc s in
    let (s2, second) = open_channel remote_input pc s1 in
    let (s3, third) = open_channel clipboard pc s2 in (s3, first ++ (second ++ third))

abbrev pub opened_if_fresh : Bool → (pc : ℕ) → WebRtc → WebRtc × List Action
opened_if_fresh true pc s = open_channels pc s
opened_if_fresh false pc s = (s, [])

-- `createOffer` up to its first `await`.
unfoldable pub create_offer :
    (trim : Text → Text) (env : Option Text) → WebRtc → WebRtc × List Action
unfolding ensure_peer open_channels
create_offer trim env s =
    let (s1, pc, made) = ensure_peer trim env s in
    let (s2, channels) = opened_if_fresh (is_none s.pc) pc s1 in
    (s2, made ++ (channels ++ (make_offer pc ∷ [])))

-- `acceptOffer` up to its first `await`.
unfoldable pub accept_offer :
    (trim : Text → Text) (env : Option Text) → (sdp : Text) → WebRtc → WebRtc × List Action
unfolding ensure_peer
accept_offer trim env sdp s =
    let (s1, pc, made) = ensure_peer trim env s in (s1, made ++ (set_remote pc offer sdp ∷ []))

-- `acceptAnswer` and `addIceCandidate`
abbrev pub accept_answer : (sdp : Text) → WebRtc → List Action
accept_answer sdp s = with_peer (λ pc. set_remote pc answer sdp ∷ []) s

abbrev pub add_ice_candidate : (candidate : Text) → WebRtc → List Action
add_ice_candidate candidate s = with_peer (λ pc. add_candidate pc candidate ∷ []) s
