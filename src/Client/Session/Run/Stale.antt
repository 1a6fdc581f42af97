-- ===== src/Client/Session/Run/Stale.antt =====
-- src/hooks/useSignalingSession.ts: an acceptance whose acknowledgement comes after the session is over.
use lantern_remote.Common.{Bool, ◌&&◌, true, false, List, [], ◌∷◌}
use lantern_remote.Value.{Value}
use lantern_remote.Client.Signaling.{Call, on_offer, on_answer, on_ice_candidate}
use lantern_remote.Client.Session.{Session}

-- What a peer has the server relay.
abbrev pub is_relayed : Call → Bool
is_relayed (on_offer payload) = true
is_relayed (on_answer payload) = true
is_relayed (on_ice_candidate payload) = true
is_relayed _ = false

abbrev pub all_relayed : List Call → Bool
all_relayed [] = true
all_relayed (c ∷ rest) = is_relayed c && all_relayed rest
