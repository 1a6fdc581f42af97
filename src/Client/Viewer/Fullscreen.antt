-- ===== src/Client/Viewer/Fullscreen.antt =====
-- What the store knows of fullscreen.
use lantern_remote.Common.{ℕ, suc, ◌≡◌, false, List, [], ◌∷◌, Option, none, some, arith, Text, ◌∙◌}
use lantern_remote.Client.Viewer.{
  Viewer, ViewerCommand, exit_fullscreen, has_stream, counted, rendered, effects,
}
use lantern_remote.Client.Viewer.Effects.{
  ViewerEvent, session_reset, left_fullscreen, step, on_frame, mounted, run,
}

unfoldable pub exits : List ViewerCommand → ℕ
exits [] = 0
exits (exit_fullscreen ∷ rest) = suc (exits rest)
exits (_ ∷ rest) = exits rest

listening-step : (now : ℕ) (e : ViewerEvent) (v : Viewer) → (step now e v).0.listening ≡ v.listening
unfolding step rendered counted on_frame
listening-step now e v = ground arith

-- The listener is set at the first rendering, or never.
listening-run :
    (now : ℕ) (stream : Option Text) (past : List (ℕ × ViewerEvent))
    → (run now stream past).0.listening ≡ has_stream stream
unfolding run
listening-run now stream [] = unfold mounted rendered counted in ground arith
listening-run now stream ((at, e) ∷ past) =
    listening-step at e (run now stream past).0 ∙ listening-run now stream past

module _ (now : ℕ) (past : List (ℕ × ViewerEvent)) (at : ℕ) where
  -- In a window that was first rendered without a stream, as the application renders it, the store
  -- does not learn that the user has left fullscreen: it goes on saying what it said.
  pub leaving_is_missed :
      let v = (run now none past).0 in
      ((step at left_fullscreen v).0.is_full ≡ false)
      × ((step at left_fullscreen v).0.wants_full ≡ v.wants_full)
  unfolding step rendered counted
  leaving_is_missed = ground (arith, listening-run now none past)

  -- First rendered with a stream, it does learn it.
  pub leaving_is_followed :
      (s : Text) → (step at left_fullscreen (run now (some s) past).0).0.wants_full ≡ false
  unfolding step rendered counted
  leaving_is_followed s = ground (arith, listening-run now (some s) past)

-- The end of a session does not leave fullscreen: nothing asks the document to.
reset_stays_full :
    (now : ℕ) (v : Viewer)
    → ((step now session_reset v).0.is_full ≡ v.is_full) × (exits (step now session_reset v).1 ≡ 0)
unfolding step rendered counted effects exits
reset_stays_full now v = ground arith
