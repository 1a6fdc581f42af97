-- ===== src/Client/ClipboardSync.antt =====
-- src/hooks/useClipboardSync.ts: when the clipboard service runs. React runs an effect again if one of
-- its two values has changed, after the clean-up of the last one.
use lantern_remote.Common.{
  ◌≡◌, refl, Bool, true, false, not, ◌&&◌, List, [], ◌∷◌, Option, none, some, Text, if◌then◌else◌,
  arith,
}
use lantern_remote.Value.{Value}
use lantern_remote.Client.Clipboard.{
  RendererClipboardService, start_begin, start_end, stop, poll_begin, poll_end,
  handle_remote_message, apply, parse_frame,
}
use lantern_remote.Client.Store.{
  ConnectionStatus, idle, connecting, waiting_for_approval, approved, negotiating, connected,
  disconnected, failed,
}

pub record ClipboardSync : Type 0 where
  pub enabled : Bool
  pub status : ConnectionStatus
  pub mounted : Bool
  pub service : RendererClipboardService

pub data SyncEvent : Type 0 where
  mount unmount : SyncEvent
  set_enabled : Bool → SyncEvent
  set_status : ConnectionStatus → SyncEvent
  -- The timer of the service, and the ends of what it has begun to read.
  poll : SyncEvent
  start_read : Text → SyncEvent
  poll_read : Option Text → SyncEvent
  frame : Text → SyncEvent

-- What touches a clipboard or the channel.
pub data Touch : Type 0 where
  reads_clipboard : Touch
  sends : Text → Touch
  writes_clipboard : Text → Touch

abbrev pub is_on : Bool → ConnectionStatus → Bool
is_on enabled connected = enabled
is_on enabled status = false

abbrev pub reading : RendererClipboardService × Bool → RendererClipboardService × List Touch
reading (s, begins) = (s, if begins then reads_clipboard ∷ [] else [])

-- The effect.
unfoldable pub effect :
    (on : Bool) → RendererClipboardService → RendererClipboardService × List Touch
effect true s = reading (start_begin s)
effect false s = (stop s, [])

abbrev pub same_status : ConnectionStatus → ConnectionStatus → Bool
same_status idle idle = true
same_status connecting connecting = true
same_status waiting_for_approval waiting_for_approval = true
same_status approved approved = true
same_status negotiating negotiating = true
same_status connected connected = true
same_status disconnected disconnected = true
same_status failed failed = true
same_status a b = false

abbrev pub same : Bool → Bool → Bool
same true b = b
same false b = not b

-- The state with its new values, after the clean-up and the effect if a value has changed.
unfoldable pub rendered : (changed : Bool) → ClipboardSync → ClipboardSync × List Touch
unfolding effect
rendered changed s =
    if not (s.mounted && changed)
    then (s, [])
    else let (service, touches) = effect (is_on s.enabled s.status) (stop s.service) in
      (record s { service = service }, touches)

abbrev pub sent : RendererClipboardService × Option Text → RendererClipboardService × List Touch
sent (s, none) = (s, [])
sent (s, some t) = (s, sends t ∷ [])

abbrev pub written : RendererClipboardService × Option Text → RendererClipboardService × List Touch
written (s, none) = (s, [])
written (s, some t) = (s, writes_clipboard t ∷ [])

abbrev pub with_service :
    RendererClipboardService × List Touch → ClipboardSync → ClipboardSync × List Touch
with_service (service, touches) s = (record s { service = service }, touches)

abbrev pub new_sync : ClipboardSync
new_sync = record {
  enabled = false;
  status = ConnectionStatus.idle;
  mounted = false;
  service = record { running = false; baseline = none };
}

same_on : (e : Bool) (c d : ConnectionStatus) → same_status c d ≡ true → is_on e c ≡ is_on e d
same_on e c d h = ground arith

sent-state : (r : RendererClipboardService × Option Text) → (sent r).0 ≡ r.0
sent-state (s, none) = refl
sent-state (s, some t) = refl

written-state : (r : RendererClipboardService × Option Text) → (written r).0 ≡ r.0
written-state (s, none) = refl
written-state (s, some t) = refl

poll_end-running :
    (t : Option Text) (s : RendererClipboardService) → (poll_end t s).0.running ≡ s.running
unfolding poll_end
poll_end-running t s = ground arith

apply-running : (t : Option Text) (s : RendererClipboardService) → (apply t s).0.running ≡ s.running
apply-running t s = ground arith

frame-running :
    (parse_json : Text → Option Value) (t : Text) (s : RendererClipboardService)
    → (handle_remote_message parse_json t s).0.running ≡ s.running
unfolding handle_remote_message
frame-running parse_json t s = ground (arith, apply-running (parse_frame (parse_json t)) s)

module _ (parse_json : Text → Option Value) where
  unfoldable pub step : SyncEvent → ClipboardSync → ClipboardSync × List Touch
  unfolding rendered effect
  step mount s = rendered (not s.mounted) (record s { mounted = true })
  step unmount s = (record s { mounted = false; service = stop s.service }, [])
  step (set_enabled b) s = rendered (not (same b s.enabled)) (record s { enabled = b })
  step (set_status c) s = rendered (not (same_status c s.status)) (record s { status = c })
  step poll s = (s, if poll_begin s.service then reads_clipboard ∷ [] else [])
  step (start_read t) s = (record s { service = start_end t s.service }, [])
  step (poll_read t) s = with_service (sent (poll_end t s.service)) s
  step (frame t) s = with_service (written (handle_remote_message parse_json t s.service)) s

  -- The hook after the events of a list, the last one first.
  unfoldable pub run : List SyncEvent → ClipboardSync
  run [] = new_sync
  run (e ∷ past) = (step e (run past)).0

  -- The service runs exactly in a connected session with the setting on.
  abbrev pub is_synced : ClipboardSync → Bool
  is_synced s = same s.service.running (s.mounted && is_on s.enabled s.status)

  step-is_synced :
      (e : SyncEvent) (s : ClipboardSync) → is_synced s ≡ true → is_synced (step e s).0 ≡ true
  unfolding step rendered effect start_begin start_end stop
  step-is_synced mount s h = ground arith
  step-is_synced unmount s h = ground arith
  step-is_synced (set_enabled b) s h = ground arith
  step-is_synced (set_status c) s h = ground (arith, same_on s.enabled c s.status)
  step-is_synced poll s h = h
  step-is_synced (start_read t) s h = ground arith
  step-is_synced (poll_read t) s h =
      rw (sent-state (poll_end t s.service), poll_end-running t s.service) h
  step-is_synced (frame t) s h =
      rw
        (
          written-state (handle_remote_message parse_json t s.service),
          frame-running parse_json t s.service,
        )
        h

  pub run-is_synced : (events : List SyncEvent) → is_synced (run events) ≡ true
  unfolding run
  run-is_synced [] = refl
  run-is_synced (e ∷ past) = step-is_synced e (run past) (run-is_synced past)

  quiet :
      (t : Text) (s : ClipboardSync)
      → s.service.running ≡ false
      → (step poll s ≡ (s, [])) × (step (frame t) s ≡ (s, []))
  unfolding step handle_remote_message
  quiet t s h = rw h (refl, refl)

  -- Whatever has happened, while the setting is off or the session is not connected no poll reads the
  -- clipboard, and no frame is written to it: both leave all as it is.
  pub sync_is_opt_in :
      (events : List SyncEvent) (t : Text)
      → is_on (run events).enabled (run events).status ≡ false
      → (step poll (run events) ≡ (run events, []))
        × (step (frame t) (run events) ≡ (run events, []))
  sync_is_opt_in events t h =
      let synced = run-is_synced events in quiet t (run events) (ground arith)
