-- ===== src/Host/Identity/Stable.antt =====
-- electron/services/DeviceIdentityService.ts: there is one id, and it is the one of the file.
use lantern_remote.Common.{
  ◌∙◌, inl, inr, every-append, Option-cases, inl, inr, ℕ, ◌≡◌, refl, Bool, true, false, List, [],
  ◌∷◌, none, some, Text, every, ◌==◌, arith, Option, ◌⊎◌, ◌++◌, every-append,
}
use lantern_remote.Host.Identity.Answers.{
  is_rejected, is_id, answers-is_id, answers-is_rejected, rejected-is_id, generate-parse,
}
use lantern_remote.Value.{read}
use lantern_remote.Shared.DeviceId.{parse_device_id}
use lantern_remote.Host.Identity.{
  on_read, on_renamed, on_failed, answered, run, step, loading, storing, get_device_id, file_read,
  file_renamed, attempt_failed, loading, storing, get_device_id, file_read, file_renamed,
  attempt_failed, finish, loaded, when_readable, Answer, generate_digits, is_drawn, answers,
  Attempt, Value, body, read_stored, storing, DeviceIdentityService, step, format_device_id,
  IdentityEvent, finish, read, get_device_id,
}

-- `JSON.parse` gives back what `JSON.stringify` was given for the file.
pub record KeepsBody (parse_json : Text → Option Value) (stringify : Value → Text) : Type 0 where
  pub round : (digits : Text) → parse_json (stringify (body digits)) ≡ some (body digits)

abbrev storable : Option Attempt → Bool
storable none = true
storable (some loading) = true
storable (some (storing digits)) = elim (parse_device_id digits) [
  | none ↦ false
  | some d ↦ d == digits
]

parsed :
    (digits : Text) → storable (some (storing digits)) ≡ true → parse_device_id digits ≡ some digits
parsed digits k = ground arith

-- The numbers of an event are drawn as `randomInt(0, 10)` draws them.
abbrev pub is_drawn_in : IdentityEvent → Bool
is_drawn_in (file_read readable draws) = is_drawn draws
is_drawn_in e = true

module _ (parse_json : Text → Option Value) (stringify : Value → Text) where
  -- No id has been given, or one id has, and it is the one of the file.
  abbrev IsUnset : DeviceIdentityService → List Answer → Type 0
  IsUnset s given =
      (s.cached_id ≡ none) × (storable s.pending ≡ true) × (every is_rejected given ≡ true)

  abbrev IsSettled : DeviceIdentityService → List Answer → Type 0
  IsSettled s given =
      (digits : Text) × (s.cached_id ≡ some (format_device_id digits))
      × (s.pending ≡ none)
      × (read_stored parse_json s.file ≡ some digits)
      × (every (is_id (format_device_id digits)) given ≡ true)

  abbrev IsStable : DeviceIdentityService → List Answer → Type 0
  IsStable s given = IsUnset s given ⊎ IsSettled s given

  read_stored-body :
      KeepsBody parse_json stringify
      → (digits : Text)
      → read_stored parse_json (some (stringify (body digits))) ≡ parse_device_id digits
  unfolding read_stored read
  read_stored-body v digits = rw (v.round digits) refl

  finish-IsSettled :
      (s : DeviceIdentityService) (digits : Text) (given : List Answer)
      → read_stored parse_json s.file ≡ some digits
      → every is_rejected given ≡ true
      → IsSettled (finish digits s).0 ((finish digits s).1 ++ given)
  finish-IsSettled s digits given r h = (
    digits,
    refl,
    refl,
    r,
    every-append (is_id (format_device_id digits))
        (answers s.waiting (some (format_device_id digits))) given
        (answers-is_id (format_device_id digits) s.waiting)
        (rejected-is_id (format_device_id digits) given h),
  )

  step-IsSettled :
      (e : IdentityEvent) (s : DeviceIdentityService) (given : List Answer)
      → IsSettled s given
      → IsSettled (step parse_json stringify e s).0 ((step parse_json stringify e s).1 ++ given)
  unfolding step
  step-IsSettled (get_device_id caller) s given (d, c, p, r, h) = rw c (d, refl, p, r, ground arith)
  step-IsSettled (file_read readable draws) s given (d, c, p, r, h) = rw p (d, c, refl, r, h)
  step-IsSettled file_renamed s given (d, c, p, r, h) = rw p (d, c, refl, r, h)
  step-IsSettled attempt_failed s given (d, c, p, r, h) = rw p (d, c, refl, r, h)

  storable-drawn :
      (draws : List ℕ)
      → is_drawn draws ≡ true
      → storable (some (storing (generate_digits draws))) ≡ true
  storable-drawn draws d = ground (arith, generate-parse draws d)

  loaded-IsStable :
      (readable : Bool) (draws : List ℕ) (s : DeviceIdentityService) (given : List Answer)
      → is_drawn draws ≡ true
      → IsUnset s given
      → let r = loaded (read_stored parse_json (when_readable readable s.file)) draws s in
        IsStable r.0 (r.1 ++ given)
  unfolding read_stored
  loaded-IsStable false draws s given d (c, p, h) = inl (c, storable-drawn draws d, h)
  loaded-IsStable true draws s given d (c, p, h) =
      elim (Option-cases (read_stored parse_json s.file)) [
        | inl e ↦ rw e (inl (c, storable-drawn draws d, h))
        | inr (digits, e) ↦ rw e (inr (finish-IsSettled s digits given e h))
      ]

  read-IsStable :
      (q : Option Attempt) (readable : Bool) (draws : List ℕ) (s : DeviceIdentityService)
      (given : List Answer)
      → is_drawn draws ≡ true
      → IsUnset s given
      → let r = on_read parse_json stringify q readable draws s in IsStable r.0 (r.1 ++ given)
  unfolding on_read
  read-IsStable none readable draws s given d u = inl u
  read-IsStable (some (storing digits)) readable draws s given d u = inl u
  read-IsStable (some loading) readable draws s given d u =
      loaded-IsStable readable draws s given d u

  renamed-IsStable :
      KeepsBody parse_json stringify
      → (q : Option Attempt) (s : DeviceIdentityService) (given : List Answer) → storable q ≡ true
      → IsUnset s given
      → let r = on_renamed parse_json stringify q s in IsStable r.0 (r.1 ++ given)
  unfolding on_renamed
  renamed-IsStable v none s given k u = inl u
  renamed-IsStable v (some loading) s given k u = inl u
  renamed-IsStable v (some (storing digits)) s given k (c, p, h) = inr (
      finish-IsSettled (record s { file = some (stringify (body digits)) }) digits given
        (read_stored-body v digits ∙ parsed digits k) h)

  failed-IsStable :
      (q : Option Attempt) (s : DeviceIdentityService) (given : List Answer)
      → IsUnset s given
      → let r = on_failed parse_json stringify q s in IsStable r.0 (r.1 ++ given)
  unfolding on_failed
  failed-IsStable none s given u = inl u
  failed-IsStable (some a) s given (c, p, h) = inl (
    c,
    refl,
    every-append is_rejected (answers s.waiting none) given (answers-is_rejected s.waiting) h,
  )

  step-IsStable :
      KeepsBody parse_json stringify
      → (e : IdentityEvent) (s : DeviceIdentityService) (given : List Answer) → is_drawn_in e ≡ true
      → IsStable s given
      → IsStable (step parse_json stringify e s).0 ((step parse_json stringify e s).1 ++ given)
  unfolding step
  step-IsStable v e s given k (inr w) = inr (step-IsSettled e s given w)
  step-IsStable v (get_device_id caller) s given k (inl (c, p, h)) =
      rw c (inl (refl, ground arith, h))
  step-IsStable v (file_read readable draws) s given k (inl u) =
      read-IsStable s.pending readable draws s given k u
  step-IsStable v file_renamed s given k (inl (c, p, h)) =
      renamed-IsStable v s.pending s given p (c, p, h)
  step-IsStable v attempt_failed s given k (inl u) = failed-IsStable s.pending s given u

  run-IsStable :
      KeepsBody parse_json stringify
      → (file : Option Text) (events : List IdentityEvent) → every is_drawn_in events ≡ true
      → IsStable (run parse_json stringify file events) (answered parse_json stringify file events)
  unfolding run answered
  run-IsStable v file [] h = inl (refl, refl, refl)
  run-IsStable v file (e ∷ past) h =
      step-IsStable v e (run parse_json stringify file past)
        (answered parse_json stringify file past) (ground arith)
        (run-IsStable v file past (ground arith))

  -- As long as no other program writes the file, whoever asks, in whatever order attempts start, end
  -- and fail, either no id has been given yet, or one id has been given to all and the file holds its
  -- digits. `JSON.parse` undoes `JSON.stringify` here, and `randomInt` keeps to its range.
  pub one_device_id :
      KeepsBody parse_json stringify
      → (file : Option Text) (events : List IdentityEvent) → every is_drawn_in events ≡ true
      → let given = answered parse_json stringify file events in
        (every is_rejected given ≡ true)
        ⊎ ((digits : Text) × (read_stored parse_json (run parse_json stringify file events).file
              ≡ some digits)
            × (every (is_id (format_device_id digits)) given ≡ true))
  one_device_id v file events h = elim (run-IsStable v file events h) [
    | inl (c, p, r) ↦ inl r
    | inr (digits, c, p, r, g) ↦ inr (digits, r, g)
  ]
