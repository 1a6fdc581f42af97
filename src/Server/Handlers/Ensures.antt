-- ===== src/Server/Handlers/Ensures.antt =====
-- Rules for the body of a handler: what holds of every refusal, and of the last step under what
-- the earlier steps have found, holds of its outcome.
use lantern_remote.Common.{
  ◌≡◌, ◌≢◌, refl, Bool, true, false, [], Option, none, some, arith, Text, present-eq_some,
}
use lantern_remote.Shared.Signaling.{SignalingErrorCode}
use lantern_remote.Server.Registry.{get_device_id, get_socket}
use lantern_remote.Server.Handlers.{
  Runtime, SignalingServer, failed, Outcome, Attempt, pass, refuse, ◌>>=◌, ◌>>◌, or_refuse, unless,
  settle, caller, live_socket,
}

abbrev pub refusal : SignalingServer → SignalingErrorCode → Outcome
refusal s e = record { server = s; effects = []; ack = failed e }

module _ {ℓ} (Q : Outcome → Type ℓ) (s : SignalingServer)
    (refused : (e : SignalingErrorCode) → Q (refusal s e)) where
  pub bind-Ensures {κ} :
      {A : Type κ} (m : Attempt A) (f : A → Attempt Outcome)
      → ((a : A) → m ≡ pass a → Q (settle s (f a)))
      → Q (settle s (m >>= f))
  bind-Ensures (pass a) f k = k a refl
  bind-Ensures (refuse e) f k = refused e

  -- A value that is looked up.
  pub or_refuse-Ensures {κ} :
      {A : Type κ} (o : Option A) (e : SignalingErrorCode) (f : A → Attempt Outcome)
      → ((a : A) → o ≡ some a → Q (settle s (f a)))
      → Q (settle s (or_refuse o e >>= f))
  or_refuse-Ensures none e f k = refused e
  or_refuse-Ensures (some a) e f k = k a refl

  -- A test that ends the handler.
  pub unless-Ensures :
      (b : Bool) (e : SignalingErrorCode) (m : Attempt Outcome)
      → (b ≡ false → Q (settle s m))
      → Q (settle s (unless b e >> m))
  unless-Ensures true e m k = refused e
  unless-Ensures false e m k = k refl

-- The caller is registered.
pub caller-eq_pass :
    (socket : Text) (s : SignalingServer) (d : Text)
    → caller socket s ≡ pass d
    → (get_device_id socket s.registry ≡ some d) × (d ≢ [])
caller-eq_pass socket s d h = present-eq_some (get_device_id socket s.registry) d (ground arith)

-- The socket is that of the device, and it is connected.
pub live_socket-eq_pass :
    (rt : Runtime) (d : Text) (s : SignalingServer) (socket : Text)
    → live_socket rt d s ≡ pass socket
    → (get_socket d s.registry ≡ some socket) × (rt.connected socket ≡ true)
live_socket-eq_pass rt d s socket h = ground arith
