-- ===== src/Task/Tests.antt =====
-- The life of a task that starts at once.
use cdev.Base.{refl, [], ◌∷◌}
use cdev.Task.{pending, running, AgentTask, new_task, transition}
use cdev.Task.Life.{Lived, created, moved, LifeInv, Lived-Inv}

abbrev fix : AgentTask
fix = new_task 1 "t1" "w1" "fix-issue" "title" "text"

abbrev started : AgentTask
started = (transition fix 2 3 running).0

Lived-started : Lived started (running ∷ pending ∷ [])
unfolding transition
Lived-started = moved 2 3 running (created 1 "t1" "w1" "fix-issue" "title" "text") refl

Lived-Inv_example : LifeInv started (running ∷ pending ∷ [])
Lived-Inv_example = Lived-Inv Lived-started
