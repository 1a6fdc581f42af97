-- ===== src/Client/Session/Mount/Sockets.antt =====
-- src/hooks/useSignalingSession.ts: the sockets that the hook of the session opens and closes.
use lantern_remote.Client.Signaling.Events.{SocketEvent, on_event}
use lantern_remote.Client.Signaling.Requests.{sockets, closes, opens, connect-IsSingle}
use lantern_remote.Client.Signaling.{
  reopen, send, call, open_socket, Action, disconnect, open_socket, connect, call, send,
  SignalingService,
}
use lantern_remote.Client.Session.Mount.{
  clean_up, SessionHook, HookAction, disconnect, socket, on_socket, set_stun_servers, connect,
  SocketEvent, on_event, booted, SignalingService, boot_failed,
}
use lantern_remote.Client.Session.Mount.{
  SessionHook, HookAction, set_stun_servers, close_peer, on_socket, clean_up, effect, rendered,
  socket_event, HookEvent, boot, boot_fails, set_url, set_stun, socket, session_becomes, unmount,
  step, run, signaling_url_of,
}
use lantern_remote.Common.{
  ℕ, ◌+◌, ◌≡◌, refl, Bool, false, List, [], ◌∷◌, ◌++◌, Option, none, some, arith, Text, map,
  if◌then◌else◌, ◌≤◌,
}

-- The sockets opened, and those closed.
unfoldable pub opened : List HookAction → ℕ
opened [] = 0
opened (on_socket (open_socket url) ∷ rest) = 1 + opened rest
opened (_ ∷ rest) = opened rest

unfoldable pub closed : List HookAction → ℕ
closed [] = 0
closed (on_socket Action.close ∷ rest) = 1 + closed rest
closed (_ ∷ rest) = closed rest

opened-append : (xs ys : List HookAction) → opened (xs ++ ys) ≡ opened xs + opened ys
unfolding opened
opened-append [] ys = omega arith
opened-append (on_socket a ∷ xs) ys = ground (arith, opened-append xs ys)
opened-append (close_peer ∷ xs) ys = opened-append xs ys
opened-append (set_stun_servers t ∷ xs) ys = opened-append xs ys

pub closed-append : (xs ys : List HookAction) → closed (xs ++ ys) ≡ closed xs + closed ys
unfolding closed
closed-append [] ys = omega arith
closed-append (on_socket a ∷ xs) ys = ground (arith, closed-append xs ys)
closed-append (close_peer ∷ xs) ys = closed-append xs ys
closed-append (set_stun_servers t ∷ xs) ys = closed-append xs ys

opened-map : (xs : List Action) → opened (map on_socket xs) ≡ opens xs
unfolding opened
opened-map [] = refl
opened-map (a ∷ xs) = ground (arith, opened-map xs)

pub closed-map : (xs : List Action) → closed (map on_socket xs) ≡ closes xs
unfolding closed
closed-map [] = refl
closed-map (Action.close ∷ xs) = omega (arith, closed-map xs)
closed-map (call c ∷ xs) = closed-map xs
closed-map (open_socket url ∷ xs) = closed-map xs
closed-map (reopen ∷ xs) = closed-map xs
closed-map (send r ∷ xs) = closed-map xs

-- No socket is held while the effect has nothing to clean up.
abbrev pub IsIdle : SessionHook → Type 0
IsIdle h = (if h.active then 0 else sockets h.signaling.socket) ≡ 0

-- What is opened and not closed is what is held.
abbrev pub HoldsSockets : (before : SessionHook) → SessionHook × List HookAction → Type 0
HoldsSockets before (after, actions) =
    (sockets before.signaling.socket + opened actions
      ≡ sockets after.signaling.socket + closed actions)
    × IsIdle after

clean_up-HoldsSockets : (h : SessionHook) → IsIdle h → HoldsSockets h (clean_up h)
unfolding clean_up opened closed disconnect
clean_up-HoldsSockets h v = ground arith

clean_up-active : (h : SessionHook) → (clean_up h).0.active ≡ false
unfolding clean_up
clean_up-active h = ground arith

sockets-le : (o : Option Bool) → sockets o ≤ 1
sockets-le none = omega arith
sockets-le (some b) = omega arith

module _ (env : Text) where
  effect-HoldsSockets : (h : SessionHook) → IsIdle h → HoldsSockets h (effect env h)
  unfolding effect opened closed
  effect-HoldsSockets h v =
      let url = signaling_url_of env h.signaling_url in
      let (h', actions) = connect url h.device.device_id h.signaling in
      ground (
        arith,
        (connect-IsSingle url h.device.device_id h.signaling).0,
        opened-map actions,
        closed-map actions,
      )

  rendered-HoldsSockets :
      (changed : Bool) (h : SessionHook) → IsIdle h → HoldsSockets h (rendered env changed h)
  unfolding rendered opened closed
  rendered-HoldsSockets changed h v =
      let (cleaned, before) = clean_up h in
      let (started, after) = effect env cleaned in
      ground (
        arith,
        clean_up-HoldsSockets h v,
        effect-HoldsSockets cleaned,
        opened-append before after,
        closed-append before after,
      )

  on_event-plain :
      (e : SocketEvent) (s : SignalingService) (b : Bool)
      → s.socket ≡ some b
      → (opens (on_event e s).1 ≡ 0)
        × (closes (on_event e s).1 ≡ 0)
        × (sockets (on_event e s).0.socket ≡ 1)
  unfolding on_event
  on_event-plain e s b h = ground arith

  socket_event-HoldsSockets :
      (e : SocketEvent) (o : Option Bool) (h : SessionHook)
      → h.signaling.socket ≡ o
      → IsIdle h
      → HoldsSockets h (socket_event env e o h)
  unfolding opened closed
  socket_event-HoldsSockets e none h k v = ground arith
  socket_event-HoldsSockets e (some b) h k v =
      let actions = (on_event e h.signaling).1 in
      ground (arith, on_event-plain e h.signaling b, opened-map actions, closed-map actions)

  step-HoldsSockets : (e : HookEvent) (h : SessionHook) → IsIdle h → HoldsSockets h (step env e h)
  unfolding step
  step-HoldsSockets (boot id) h v =
      rendered-HoldsSockets _ (record h { device = booted id h.device }) v
  step-HoldsSockets (boot_fails m) h v =
      rendered-HoldsSockets _ (record h { device = boot_failed m h.device }) v
  step-HoldsSockets (set_url t) h v = rendered-HoldsSockets _ (record h { signaling_url = t }) v
  step-HoldsSockets (set_stun t) h v = rendered-HoldsSockets _ (record h { stun_servers = t }) v
  step-HoldsSockets (socket e) h v = socket_event-HoldsSockets e h.signaling.socket h refl v
  step-HoldsSockets (session_becomes s) h v = unfold opened closed in ground arith
  step-HoldsSockets unmount h v = clean_up-HoldsSockets h v

  module _ (url stun : Text) where
    run-HoldsSockets :
        (past : List HookEvent)
        → (opened (run env url stun past).1
            ≡ sockets (run env url stun past).0.signaling.socket + closed (run env url stun past).1)
          × IsIdle (run env url stun past).0
    unfolding run
    run-HoldsSockets [] = unfold opened closed in (refl, refl)
    run-HoldsSockets (e ∷ past) =
        let (h, actions) = run env url stun past in
        let (h', more) = step env e h in
        ground (
          arith,
          run-HoldsSockets past,
          step-HoldsSockets e h,
          opened-append actions more,
          closed-append actions more,
        )

    -- Whatever is booted, set and received, one socket of the signaling server is open at most, and
    -- once the component has gone none is.
    pub no_socket_is_left :
        (past : List HookEvent)
        → (opened (run env url stun past).1 ≤ closed (run env url stun past).1 + 1)
          × (opened (run env url stun (unmount ∷ past)).1
              ≡ closed (run env url stun (unmount ∷ past)).1)
    unfolding run step
    no_socket_is_left past =
        let h = (run env url stun past).0 in
        ground (
          arith,
          run-HoldsSockets past,
          run-HoldsSockets (unmount ∷ past),
          sockets-le (run env url stun past).0.signaling.socket,
          clean_up-active h,
        )
