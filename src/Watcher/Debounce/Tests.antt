-- ===== src/Watcher/Debounce/Tests.antt =====
-- Runs of the debouncer: a file is created, changed, and reported once.
use cdev.Base.{
  ◌≡◌, refl, List, [], ◌∷◌, none, true, string_eq, nat_eq, string_discrete, ℕ_discrete, String,
}
use cdev.Base.Map.{lookup, insert, erase}
use cdev.Watcher.Debounce.{
  created, modified, DebouncedEvent, Debouncer, new_debouncer, add, elapse, fire,
}
use cdev.Watcher.Debounce.Merge.{Op, adds, fires, reported, coalesced, reported_new}
use cdev.Watcher.Debounce.Timers
use cdev.Watcher.Debounce.Timers.{Reachable, started, steps, elapses, runs, finished}
use cdev.Watcher.Debounce.Reported.{
  Run, done, next, with_call, reports, IsThrough, pending-reported,
}

abbrev ops : List Op
ops = adds "a" created 1 ∷ adds "b" modified 2 ∷ adds "a" modified 3 ∷ fires "a" ∷ fires "a" ∷ []

reported_new_example : reported "a" new_debouncer ops ≡ coalesced "a" none ops
reported_new_example = reported_new "a" ops

abbrev one_change : Debouncer
one_change = add new_debouncer "a" created 1

abbrev change : DebouncedEvent
change = record { path = "a"; change_type = created; timer = 1 }

Reachable-one_change : Reachable one_change
unfolding lookup new_debouncer
Reachable-one_change = steps started (Timers.adds "a" created 1 (refl, refl))

-- The file is changed again, the new timer goes off, and its function runs.
abbrev twice : Debouncer
twice = add one_change "a" modified 2

abbrev timed_out : Debouncer
timed_out = elapse twice 2 (lookup 2 twice.armed)

abbrev quiet : Debouncer
quiet = finished timed_out 2 "a"

quiet-Run : Run one_change (with_call (fire timed_out "a").1 []) quiet
unfolding add new_debouncer insert lookup erase string_discrete ℕ_discrete
quiet-Run =
    next (Timers.adds "a" modified 2 (refl, refl)) (next (elapses 2) (next (runs 2 "a" refl) done))

no_timer : (quiet.armed ≡ []) × (quiet.gone_off ≡ [])
unfolding add new_debouncer insert lookup erase fire string_discrete ℕ_discrete
no_timer = (refl, refl)

empty-IsThrough : (p : String) (d : Debouncer) → d.armed ≡ [] → d.gone_off ≡ [] → IsThrough p d
unfolding lookup
empty-IsThrough p d a g t = (rw (a) (λ e. absurd (cc)), rw (g) (λ e. absurd (cc)))

quiet-IsThrough : IsThrough "a" quiet
quiet-IsThrough = empty-IsThrough "a" quiet no_timer.0 no_timer.1

pending-reported_example : reports "a" (with_call (fire timed_out "a").1 []) ≡ true
unfolding add new_debouncer insert lookup string_discrete
pending-reported_example =
    pending-reported "a" change Reachable-one_change refl quiet-Run quiet-IsThrough
