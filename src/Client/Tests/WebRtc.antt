-- ===== src/Client/Tests/WebRtc.antt =====
-- The theorems of the peer connection at a concrete run.
use lantern_remote.Common.{
  ℕ, ◌≡◌, ◌≢◌, ◌⊎◌, refl, Bool, true, false, List, [], ◌∷◌, none, some, Text, text, every,
}
use lantern_remote.Client.WebRtc.{
  remote_input, slot, send_on_channel, create_offer, ensure_peer, open_channels, open_channel, wire,
}
use lantern_remote.Client.WebRtc.IceServers.{build_ice_servers, not_empty, ice_servers-not_empty}
use lantern_remote.Client.WebRtc.Handlers.{track}
use lantern_remote.Client.WebRtc.Run.{WebRtcEvent, offer_wanted, close_all, peer_event, step, run}
use lantern_remote.Client.WebRtc.Run.Single.{
  open_peers, current, one_connection, only_current_is_heard,
}

abbrev trim : Text → Text
trim s = s

abbrev url : Text
unfolding text
url = text "stun:a"

abbrev other : Text
unfolding text
other = text "stun:b"

ice_servers-not_empty_example :
    (build_ice_servers trim none url ≢ [])
    × (every not_empty (build_ice_servers trim none url) ≡ true)
ice_servers-not_empty_example = ice_servers-not_empty trim none url

-- A second connection after the first was closed, the last event first.
abbrev events : List WebRtcEvent
events = offer_wanted ∷ (close_all ∷ (offer_wanted ∷ []))

one_connection_example : open_peers trim none events ≡ current (run trim none events).pc
one_connection_example = one_connection trim none events

abbrev takes_all : ℕ → Bool
takes_all c = true

only_current_is_heard_example :
    ((step trim none (peer_event 0 (track (some url))) (run trim none events)
        ≡ (run trim none events, []))
      ⊎ ((run trim none events).pc ≡ some 0))
    × (((pc : ℕ) × ((run trim none events).pc ≡ some pc))
        ⊎ (send_on_channel takes_all (slot remote_input (run trim none events)) url ≡ (false, [])))
only_current_is_heard_example =
    only_current_is_heard trim none events 0 (track (some url)) remote_input takes_all url

input_channel : slot remote_input (run trim none (offer_wanted ∷ [])) ≡ some 2
unfolding run step create_offer ensure_peer open_channels open_channel wire
input_channel = refl
