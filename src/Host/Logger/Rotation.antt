-- ===== src/Host/Logger/Rotation.antt =====
-- electron/services/Logger.ts: the rotation of the log files.
use lantern_remote.Common.{
  Option-cases, Bool-cases, inl, inr, refl, arith, ◌⊎◌, ℕ, zero, suc, ◌+◌, ◌-◌, ◌≡◌, ◌≤◌, ◌<◌, refl,
  Option, none, some, Text, ltb, eqb, if◌then◌else◌, arith, ◌⊎◌,
}
use lantern_remote.Host.Logger.{max_log_size, max_log_files}

-- The log and its rotated files by their number, 0 for the log.
abbrev pub Files : Type 0
Files = ℕ → Option Text

abbrev pub moved : Option Text → ℕ → Files → Files
moved none i files = files
moved (some content) i files =
    λ k. if eqb k (i + 1) then some content else (if eqb k i then none else files k)

-- `rename` of a file to the next number, where an error is caught.
abbrev pub rename : ℕ → Files → Files
rename i files = moved (files i) i files

-- The rounds of the loop that are left, from file `i - 1`.
abbrev pub rename_down : (i : ℕ) → Files → Files
rename_down zero files = files
rename_down (suc i) files = rename_down i (rename i files)

-- `rotateLogFile`, for a log of this size that is there.
unfoldable pub rotate_log_file : (size : ℕ) → Files → Files
rotate_log_file size files =
    if ltb size max_log_size then files else rename_down (max_log_files - 1) files

-- `a`, or `b` where there is no `a`.
abbrev pub first_of : Option Text → Option Text → Option Text
first_of none b = b
first_of (some a) b = some a

two_moves :
    (files : Files) (log : Text) (k : ℕ)
    → files 0 ≡ some log
    → 2 < k
    → let after = rename_down 2 files in
      (after 0 ≡ none)
      × (after 1 ≡ some log)
      × (after 2 ≡ first_of (files 1) (files 2))
      × (after k ≡ files k)
two_moves files log k h b = elim (Option-cases (files 1)) [
  | inl e ↦ rw (e, h) (refl, refl, refl, ground arith)
  | inr (old, e) ↦ rw (e, h) (refl, refl, refl, ground arith)
]

-- When the log has reached 5 MB it becomes file 1 and leaves its place free; what was file 1 becomes
-- file 2, over what was there; no other file changes. A smaller log stays, and all others with it.
pub rotation_keeps_two :
    (size : ℕ) (files : Files) (log : Text) (k : ℕ)
    → files 0 ≡ some log
    → 2 < k
    → let after = rotate_log_file size files in
      (((max_log_size ≤ size)
          × (after 0 ≡ none)
          × (after 1 ≡ some log)
          × (after 2 ≡ first_of (files 1) (files 2))
          × (after k ≡ files k))
        ⊎ ((size < max_log_size) × (after ≡ files)))
unfolding rotate_log_file
rotation_keeps_two size files log k h b = elim (Bool-cases (ltb size max_log_size)) [
  | inl small ↦ inr (ground arith, rw small refl)
  | inr full ↦
      let (a, one, two, rest) = two_moves files log k h b in
      inl (ground arith, rw full a, rw full one, rw full two, rw full rest)
]
