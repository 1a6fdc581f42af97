-- ===== src/Client/WebRtc/Run.antt =====
-- src/services/WebRTCService.ts: calls of the service and events of the browser, in any order.
pub mod Single
pub mod Channels
use lantern_remote.Common.{ℕ, ◌≡◌, Bool, true, ◌&&◌, List, [], ◌∷◌, Option, none, some, Text, arith}
use lantern_remote.Client.WebRtc.{
  WebRtc, new_service, Action, new_peer, close_peer, Notice, ChannelKind, wire, slot,
  send_on_channel, ensure_peer, open_channel, create_offer, accept_offer, accept_answer,
  add_ice_candidate, close, without, is_none,
}
use lantern_remote.Client.WebRtc.Handlers.{
  Senders, add_local_stream, remove_local_stream, PeerEvent, ChannelEvent, on_peer, on_channel,
  peer_handlers, arrives,
}

pub data WebRtcEvent : Type 0 where
  set_events : (events : Notice → Bool) → WebRtcEvent
  set_stun_servers : (servers : Text) → WebRtcEvent
  offer_wanted : WebRtcEvent
  offer_received answer_received candidate_received : Text → WebRtcEvent
  share : Senders → (tracks : List Text) → WebRtcEvent
  unshare : Senders → WebRtcEvent
  send_frame : ChannelKind → (sends : ℕ → Bool) → (frame : Text) → WebRtcEvent
  close_all : WebRtcEvent
  peer_event : (pc : ℕ) → PeerEvent → WebRtcEvent
  channel_event : (channel : ℕ) → ChannelEvent → WebRtcEvent

module _ (trim : Text → Text) (env : Option Text) where
  unfoldable pub step : WebRtcEvent → WebRtc → WebRtc × List Action
  unfolding create_offer accept_offer close on_peer on_channel send_on_channel
  step (set_events events) s = (record s { events = events }, [])
  step (set_stun_servers servers) s = (record s { settings_stun_servers = servers }, [])
  step offer_wanted s = create_offer trim env s
  step (offer_received sdp) s = accept_offer trim env sdp s
  step (answer_received sdp) s = (s, accept_answer sdp s)
  step (candidate_received c) s = (s, add_ice_candidate c s)
  step (share senders tracks) s = (s, add_local_stream senders tracks s)
  step (unshare senders) s = (s, remove_local_stream senders s)
  step (send_frame kind sends frame) s = (s, (send_on_channel sends (slot kind s) frame).1)
  step close_all s = close s
  step (peer_event pc e) s = on_peer pc e s
  step (channel_event c e) s = (s, on_channel c e s)

  -- The service after the events of a list, the last one first.
  unfoldable pub run : List WebRtcEvent → WebRtc
  run [] = new_service
  run (e ∷ past) = (step e (run past)).0
