-- ===== src/Client/Capture/Keys.antt =====
-- src/services/RemoteInputService.ts: the held keys, and the keys that the host has been told are down.
use lantern_remote.Common.{◌≡◌, refl, Bool, true, false, List, [], ◌∷◌, map, Text, arith, every}
use lantern_remote.Common.{if◌then◌else◌}
use lantern_remote.Shared.RemoteInput.{keyboard, keydown, keyup}
use lantern_remote.Shared.RemoteInput.Keys.{has}
use lantern_remote.Shared.RemoteInput.Geometry.{Doubles}
use lantern_remote.Client.Capture.Valid.{listed}
use lantern_remote.Client.Capture.Sent.{is_sound, run-is_sound}
use lantern_remote.Client.Capture.{
  Moment, Effect, send, Capture, CaptureEvent, on_key_down, on_key_up, on_blur, flush_move,
  timer_fires, key_message, key_down, key_up, release, flush_held_keys, detach, mouse_moves, step,
  run, add, delete,
}

-- The keys that are down for whoever reads what is sent.
abbrev pub on_wire : List Effect → List Text → List Text
on_wire [] codes = codes
on_wire (send (keyboard keydown key code) ∷ es) codes = on_wire es (add code codes)
on_wire (send (keyboard keyup key code) ∷ es) codes = on_wire es (delete code codes)
on_wire (e ∷ es) codes = on_wire es codes

-- Each member of the second list is in the first.
abbrev among : List Text → List Text → Bool
among xs ys = every (λ c. has c xs) ys

among-more : (x : Text) (xs ys : List Text) → among xs ys ≡ true → among (x ∷ xs) ys ≡ true
among-more x xs [] h = refl
among-more x xs (y ∷ ys) h = ground (arith, among-more x xs ys)

among_self : (xs : List Text) → among xs xs ≡ true
among_self [] = refl
among_self (x ∷ xs) = ground (arith, among-more x xs xs (among_self xs))

among-delete :
    (x : Text) (xs ys : List Text) → among (x ∷ xs) ys ≡ true → among xs (delete x ys) ≡ true
among-delete x xs [] h = refl
among-delete x xs (y ∷ ys) h = ground (arith, among-delete x xs ys)

on_wire-release : (xs ys : List Text) → among xs ys ≡ true → on_wire (map release xs) ys ≡ []
on_wire-release [] [] h = refl
on_wire-release [] (y ∷ ys) h = absurd (ground arith)
on_wire-release (x ∷ xs) ys h = on_wire-release xs (delete x ys) (among-delete x xs ys h)

-- An unlisted code is no member of a list of listed ones.
delete_unlisted :
    (code : Text) (held : List Text)
    → listed code ≡ false
    → every listed held ≡ true
    → delete code held ≡ held
delete_unlisted code [] n h = refl
delete_unlisted code (c ∷ cs) n h = ground (arith, delete_unlisted code cs n)

abbrev gives_up : CaptureEvent → Bool
gives_up (on_key_up key code) = true
gives_up on_blur = true
gives_up e = false

-- The channel takes what a key release and a blur of the window send.
abbrev pub releases_sent : Moment × CaptureEvent → Bool
releases_sent (m, e) = if gives_up e then m.sends else true

-- What is told of the keys at one moment.
abbrev pub told : Moment → List Effect → List Text → List Text
told m es codes = if m.sends then on_wire es codes else codes

told-down :
    (m : Moment) (key code : Text) (s : Capture)
    → told m (key_down m key code s).1 s.held_keys ≡ (key_down m key code s).0.held_keys
unfolding key_down key_message
told-down m key code s = ground arith

told-up :
    (m : Moment) (key code : Text) (s : Capture)
    → m.sends ≡ true
    → every listed s.held_keys ≡ true
    → told m (key_up key code s).1 s.held_keys ≡ (key_up key code s).0.held_keys
unfolding key_up key_message
told-up m key code s h l = ground (arith, delete_unlisted code s.held_keys)

module _ (f : Doubles) where
  told-step :
      (m : Moment) (e : CaptureEvent) (s : Capture)
      → is_sound f s ≡ true
      → releases_sent (m, e) ≡ true
      → told m (step f m e s).1 s.held_keys ≡ (step f m e s).0.held_keys
  unfolding step mouse_moves timer_fires flush_move flush_held_keys
  told-step m (on_key_down key code) s i h = told-down m key code s
  told-step m (on_key_up key code) s i h = told-up m key code s (ground arith) (ground arith)
  told-step m on_blur s i h =
      ground (arith, on_wire-release s.held_keys s.held_keys (among_self s.held_keys))
  told-step m e s i h = ground arith

  -- The keys that are down for the host after the events of a list, the last one first.
  abbrev pub pressed : List (Moment × CaptureEvent) → List Text
  pressed [] = []
  pressed ((m, e) ∷ past) = told m (step f m e (run f past)).1 (pressed past)

  pressed-held :
      (events : List (Moment × CaptureEvent))
      → every releases_sent events ≡ true
      → pressed events ≡ (run f events).held_keys
  unfolding run
  pressed-held [] h = refl
  pressed-held ((m, e) ∷ past) h =
      rw (pressed-held past (ground arith))
        (told-step m e (run f past) (run-is_sound f past) (ground arith))

  -- While the channel takes what key releases and blurs send, the keys that the host has been told
  -- are down are the held ones. Detaching then, with the channel still open, leaves none down.
  pub no_key_sticks :
      (events : List (Moment × CaptureEvent)) (last : Moment)
      → every releases_sent events ≡ true
      → last.sends ≡ true
      → (pressed events ≡ (run f events).held_keys)
        × (told last (detach (run f events)).1 (pressed events) ≡ [])
  unfolding detach flush_held_keys
  no_key_sticks events last h sent =
      let same = pressed-held events h in
      let held = (run f events).held_keys in
      (same, rw (same, sent) (on_wire-release held held (among_self held)))
