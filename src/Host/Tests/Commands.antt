-- ===== src/Host/Tests/Commands.antt =====
-- Two commands on the queue of an adapter, of which the first fails.
use lantern_remote.Common.{
  ◌≡◌, ◌⊎◌, ◌+◌, refl, true, List, [], ◌∷◌, ◌++◌, Option, some, arith, Text, text, get_elem?,
  length, every,
}
use lantern_remote.Host.Input.Runner.{is_denied}
use lantern_remote.Host.Input.Queue.{
  Link, running, settled, Turn, enqueues, fires, ends, fire, settle, turn, run, is_settled,
}
use lantern_remote.Host.Input.Queue.Order.{none_overtakes}
use lantern_remote.Host.Input.Queue.Drain.{
  queue_drains, remaining, settles, IsProgress, AreProgress,
}
use lantern_remote.Host.Input.Queue.Answers.{own_answer, calls, Ended}

denied : is_denied (text "It is not TRUSTED") ≡ true
unfolding is_denied text
denied = refl

abbrev press : List Text
unfolding text
press = text "mousedown" ∷ (text "1" ∷ [])

abbrev release : List Text
unfolding text
release = text "mouseup" ∷ (text "1" ∷ [])

abbrev broken : Option Text
unfolding text
broken = some (text "xdotool failed.")

abbrev called : List Turn
called = enqueues release ∷ (enqueues press ∷ [])

abbrev begun : List Turn
begun = fires 1 ∷ (ends 0 broken ∷ (fires 0 ∷ []))

abbrev first : Link
first = record { args = press; state = settled broken }

abbrev second : Link
second = record { args = release; state = running }

under_way : run (begun ++ called) ≡ first ∷ (second ∷ [])
unfolding run turn fire settle
under_way = refl

first_link : get_elem? (run (begun ++ called)) 0 ≡ some first
first_link = rw under_way refl

none_overtakes_example : is_settled first.state ≡ true
none_overtakes_example =
    none_overtakes (begun ++ called) 0 1 first second (omega arith) first_link (rw under_way refl)
      refl

progress : AreProgress begun called
unfolding run turn fire settle
progress = ((refl, λ e. cc), ((refl, λ e. cc), ((refl, λ e. cc), tt)))

queue_drains_example :
    (length begun + remaining (run (begun ++ called)) ≡ remaining (run called))
    × ((every settles (run (begun ++ called)) ≡ true)
        ⊎ ((t : Turn) × IsProgress t (run (begun ++ called))))
queue_drains_example = queue_drains called begun progress

own_answer_example :
    (get_elem? (calls (begun ++ called)) 0 ≡ some press) × Ended 0 broken (begun ++ called)
own_answer_example = own_answer (begun ++ called) 0 first broken first_link refl
