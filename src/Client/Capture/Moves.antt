-- ===== src/Client/Capture/Moves.antt =====
-- src/services/RemoteInputService.ts: how often mouse moves are sent, and that the latest one is.
use lantern_remote.Common.{
  ℕ, ◌+◌, ◌≤◌, ◌≡◌, refl, Bool, true, false, ◌&&◌, List, [], ◌∷◌, ◌++◌, map, none, some, Text, leb,
  eqb, arith, ◌⊎◌, inl, inr,
}
use lantern_remote.Shared.RemoteInput.{mouse_move}
use lantern_remote.Shared.RemoteInput.Geometry.{Doubles}
use lantern_remote.Client.Capture.{
  Moment, Effect, send, Capture, CaptureEvent, flush_move, timer_fires, key_message, key_down,
  key_up, release, flush_held_keys, frame_point, mouse_moves, step, run, move_throttle_ms, Number,
  on_mouse_move, on_timer, Option, Point,
}

-- A move waits exactly when the timer is set, and that is due 33 ms after the last move.
abbrev pub is_paced : Capture → Bool
is_paced s = elim s.pending_move [
  | none ↦ elim s.trailing_timer [ none ↦ true | some due ↦ false ]
  | some p ↦ elim s.trailing_timer [
    | none ↦ false
    | some due ↦ eqb due (s.last_move_at + move_throttle_ms)
  ]
]

-- The time of each move among effects of one moment.
abbrev moves_at : ℕ → List Effect → List ℕ
moves_at t [] = []
moves_at t (send (mouse_move x y) ∷ es) = t ∷ moves_at t es
moves_at t (e ∷ es) = moves_at t es

moves_at-release : (t : ℕ) (codes : List Text) → moves_at t (map release codes) ≡ []
moves_at-release t [] = refl
moves_at-release t (c ∷ cs) = moves_at-release t cs

-- Each at least 33 ms after the next of the list.
abbrev pub spaced : List ℕ → Bool
spaced [] = true
spaced (a ∷ []) = true
spaced (a ∷ b ∷ ts) = leb (b + move_throttle_ms) a && spaced (b ∷ ts)

-- The clock when the timer runs: at its time or later.
abbrev pub on_time : Moment → CaptureEvent → Capture → Bool
on_time m on_timer s = elim s.trailing_timer [ none ↦ true | some due ↦ leb due m.now ]
on_time m e s = true

module _ (f : Doubles) where
  step-is_paced :
      (m : Moment) (e : CaptureEvent) (s : Capture)
      → is_paced s ≡ true
      → is_paced (step f m e s).0 ≡ true
  unfolding step frame_point mouse_moves timer_fires flush_move key_down key_message key_up
      flush_held_keys
  step-is_paced m e s h = ground arith

  run-is_paced : (events : List (Moment × CaptureEvent)) → is_paced (run f events) ≡ true
  unfolding run
  run-is_paced [] = refl
  run-is_paced ((m, e) ∷ past) = step-is_paced m e (run f past) (run-is_paced past)

  -- A step sends no move, and the time of the last one stays, or sends one that is due.
  step-moves :
      (m : Moment) (e : CaptureEvent) (s : Capture)
      → is_paced s ≡ true
      → on_time m e s ≡ true
      → let r = step f m e s in
        ((moves_at m.now r.1 ≡ []) × (r.0.last_move_at ≡ s.last_move_at))
        ⊎ ((moves_at m.now r.1 ≡ m.now ∷ [])
            × (r.0.last_move_at ≡ m.now)
            × (s.last_move_at + move_throttle_ms ≤ m.now))
  unfolding step frame_point mouse_moves timer_fires flush_move key_down key_message key_up
      flush_held_keys
  step-moves m e s h on = ground (arith, moves_at-release m.now s.held_keys)

  -- When the moves of a capture were sent, the last one first.
  abbrev pub move_times : List (Moment × CaptureEvent) → List ℕ
  move_times [] = []
  move_times ((m, e) ∷ past) = moves_at m.now (step f m e (run f past)).1 ++ move_times past

  -- The first of them is when the last move was sent.
  abbrev is_latest : Capture → List ℕ → Bool
  is_latest s [] = true
  is_latest s (t ∷ ts) = eqb s.last_move_at t

  next_moves :
      (ts new : List ℕ) (s r : Capture) (now : ℕ)
      → ((new ≡ []) × (r.last_move_at ≡ s.last_move_at))
        ⊎ ((new ≡ now ∷ []) × (r.last_move_at ≡ now) × (s.last_move_at + move_throttle_ms ≤ now))
      → (is_latest s ts && spaced ts) ≡ true
      → (is_latest r (new ++ ts) && spaced (new ++ ts)) ≡ true
  next_moves [] new s r now (inl (e, k)) h = rw e (ground arith)
  next_moves (t ∷ ts) new s r now (inl (e, k)) h = rw e (ground arith)
  next_moves [] new s r now (inr (e, k, d)) h = rw e (ground arith)
  next_moves (t ∷ ts) new s r now (inr (e, k, d)) h = rw e (ground arith)

  -- No timer has run before its time.
  abbrev pub is_punctual : List (Moment × CaptureEvent) → Bool
  is_punctual [] = true
  is_punctual ((m, e) ∷ past) = on_time m e (run f past) && is_punctual past

  move_times-latest :
      (events : List (Moment × CaptureEvent))
      → is_punctual events ≡ true
      → (is_latest (run f events) (move_times events) && spaced (move_times events)) ≡ true
  unfolding run
  move_times-latest [] p = refl
  move_times-latest ((m, e) ∷ past) p =
      next_moves (move_times past) (moves_at m.now (step f m e (run f past)).1) (run f past)
        (step f m e (run f past)).0 m.now
        (step-moves m e (run f past) (run-is_paced past) (ground arith))
        (move_times-latest past (ground arith))

  -- Whatever happens to one attached capture, each mouse move is sent at least 33 ms by the clock after
  -- the move before it. `setTimeout` keeps to the delay that it is given, and the clock is not set
  -- back while it waits: no timer runs before the time at which it is due.
  pub moves_are_spaced :
      (events : List (Moment × CaptureEvent))
      → is_punctual events ≡ true
      → spaced (move_times events) ≡ true
  moves_are_spaced events p = ground (arith, move_times-latest events p)

  pending_is_sent :
      (m later : Moment) (p : Option Point) (x y : Number) (s : Capture)
      → p ≡ some (x, y)
      → is_paced s ≡ true
      → ((mouse_moves f m p s).1 ≡ send (mouse_move x y) ∷ [])
        ⊎ ((timer_fires later (mouse_moves f m p s).0).1 ≡ send (mouse_move x y) ∷ [])
  unfolding mouse_moves timer_fires flush_move
  pending_is_sent m later p x y s e h = rw e (ground arith)

  -- A mouse move inside the frame is sent at once, or by the timer if that runs next, whatever the
  -- clock says then.
  pub move_is_sent :
      (events : List (Moment × CaptureEvent)) (m later : Moment) (cx cy x y : Number)
      → frame_point f m.view cx cy ≡ some (x, y)
      → ((step f m (on_mouse_move cx cy) (run f events)).1 ≡ send (mouse_move x y) ∷ [])
        ⊎ ((step f later on_timer (run f ((m, on_mouse_move cx cy) ∷ events))).1
            ≡ send (mouse_move x y) ∷ [])
  unfolding step run
  move_is_sent events m later cx cy x y h =
      pending_is_sent m later (frame_point f m.view cx cy) x y (run f events) h
        (run-is_paced events)
