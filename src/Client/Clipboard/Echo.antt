-- ===== src/Client/Clipboard/Echo.antt =====
-- Copies travel once and are not echoed.
use lantern_remote.Common.{
  ◌≤◌, ◌<◌, ◌≡◌, ◌≢◌, refl, true, false, Option, none, some, arith, Text, length,
}
use lantern_remote.Value.{Value, read}
use lantern_remote.Shared.Clipboard.{
  clipboard_message, max_clipboard_text_chars, parse_clipboard_message,
}
use lantern_remote.Client.Clipboard.{
  RendererClipboardService, stop, poll_begin, poll_end, handle_remote_message, parse_frame,
}

-- A text that may travel.
abbrev pub IsSendable : Text → Type 0
IsSendable t = (0 < length t) × (length t ≤ max_clipboard_text_chars)

parse-clipboard_message :
    (t : Text) → IsSendable t → parse_clipboard_message (clipboard_message t) ≡ some t
unfolding parse_clipboard_message read
parse-clipboard_message t (lo, hi) = ground arith

-- A poll that sends has found a new text that may travel, and keeps it as the baseline.
pub poll_end_sends :
    (o : Option Text) (t : Text) (s : RendererClipboardService)
    → (poll_end o s).1 ≡ some t
    → (o ≡ some t) × IsSendable t × (s.baseline ≢ some t) × ((poll_end o s).0.baseline ≡ some t)
unfolding poll_end
poll_end_sends none t s h = absurd (cc)
poll_end_sends (some u) t s h = ground arith

settled :
    (t : Text) (s : RendererClipboardService)
    → s.baseline ≡ some t
    → poll_end (some t) s ≡ (s, none)
unfolding poll_end
settled t s old = ground arith

module _ (parse_json : Text → Option Value) (stringify : Value → Text)
    (parse-stringify : (t : Text)
      → parse_json (stringify (clipboard_message t)) ≡ some (clipboard_message t)) where
  frame_text :
      (t : Text)
      → IsSendable t
      → parse_frame (parse_json (stringify (clipboard_message t))) ≡ some t
  frame_text t fits = rw (parse-stringify t) (parse-clipboard_message t fits)

  received_once :
      (t : Text) (b : RendererClipboardService)
      → IsSendable t
      → b.running ≡ true
      → b.baseline ≢ some t
      → handle_remote_message parse_json (stringify (clipboard_message t)) b
        ≡ (record b { baseline = some t }, some t)
  unfolding handle_remote_message
  received_once t b fits running new = rw (frame_text t fits) (ground arith)

  dropped :
      (t : Text) (b : RendererClipboardService)
      → IsSendable t
      → b.baseline ≡ some t
      → handle_remote_message parse_json (stringify (clipboard_message t)) b ≡ (b, none)
  unfolding handle_remote_message
  dropped t b fits old = rw (frame_text t fits) (ground arith)

  -- A text that one side's poll sends is written once on the other side, if that is polling and has
  -- another text; and then neither side's next poll of it sends anything, nor does the receiver
  -- write it again.
  pub copied_once :
      (t : Text) (o : Option Text) (a b : RendererClipboardService)
      → (poll_end o a).1 ≡ some t
      → b.running ≡ true
      → b.baseline ≢ some t
      → let a' = (poll_end o a).0 in
        let received = handle_remote_message parse_json (stringify (clipboard_message t)) b in
        (received.1 ≡ some t)
        × (poll_end (some t) received.0 ≡ (received.0, none))
        × (poll_end (some t) a' ≡ (a', none))
        × (handle_remote_message parse_json (stringify (clipboard_message t)) received.0
            ≡ (received.0, none))
  copied_once t o a b sent running new =
      let (_, fits, _, kept) = poll_end_sends o t a sent in
      let once = received_once t b fits running new in
      rw once (refl, settled t _ refl, settled t _ kept, dropped t _ fits refl)

-- While the synchronisation is off, frames from the peer are dropped and polls do not start.
pub stopped_is_deaf :
    (parse_json : Text → Option Value) (frame : Text) (s : RendererClipboardService)
    → (handle_remote_message parse_json frame (stop s) ≡ (stop s, none))
      × (poll_begin (stop s) ≡ false)
unfolding handle_remote_message stop
stopped_is_deaf parse_json frame s = (refl, refl)

-- A poll whose read is in flight when the synchronisation is stopped still sends what it has read.
pub poll_end-stop :
    (t : Text) (s : RendererClipboardService)
    → IsSendable t
    → poll_end (some t) (stop s) ≡ (record { running = false; baseline = some t }, some t)
unfolding poll_end stop
poll_end-stop t s fits = ground arith
