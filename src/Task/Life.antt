-- ===== src/Task/Life.antt =====
-- What every life of a task has in common (state.go).
use cdev.Base.{
  String, ℕ, ◌+◌, ◌≡◌, refl, sym, ap, Bool, true, false, ◌&&◌, ◌||◌, not, List, [], ◌∷◌, none, some,
  is_some, length, length-append, arith, Bool-cases, inl, inr,
}
use cdev.Base.Text.{codes}
use cdev.Task.{
  Status, pending, planning, running, validating, awaiting_approval, completed, failed, stuck,
  same_status, is_terminal, contains_status, can_transition_to, all_statuses, AgentTask, new_task,
  add_timeline_event, mark_times, change_message, transition,
}

-- A test that holds of the listed statuses holds of every status.
abbrev holds : (Status → Bool) → List Status → Bool
holds p [] = true
holds p (s ∷ rest) = p s && holds p rest

each : (p : Status → Bool) → holds p all_statuses ≡ true → (s : Status) → p s ≡ true
each p h pending = ground arith
each p h planning = ground arith
each p h running = ground arith
each p h validating = ground arith
each p h awaiting_approval = ground arith
each p h completed = ground arith
each p h failed = ground arith
each p h stuck = ground arith

each_two :
    (p : Status → Status → Bool)
    → holds (λ s. holds (p s) all_statuses) all_statuses ≡ true
    → (s t : Status) → p s t ≡ true
each_two p h s t = each (p s) (each (λ u. holds (p u) all_statuses) h s) t

abbrev implies : Bool → Bool → Bool
implies a b = not a || b

-- The statuses that only a task which ran can have.
abbrev pub begun : Status → Bool
begun running = true
begun validating = true
begun awaiting_approval = true
begun completed = true
begun stuck = true
begun _ = false

-- The statuses that end an attempt.
abbrev pub ended : Status → Bool
ended completed = true
ended failed = true
ended _ = false

-- The statuses that only follow a validation.
abbrev pub checked : Status → Bool
checked awaiting_approval = true
checked completed = true
checked _ = false

begun-step :
    (s t : Status)
    → implies (can_transition_to s t) (implies (begun t) (same_status t running || begun s)) ≡ true
begun-step = each_two _ refl

checked-step :
    (s t : Status)
    → implies (can_transition_to s t) (implies (checked t) (same_status s validating || checked s))
      ≡ true
checked-step = each_two _ refl

-- The lives of a task: it is created, and moves by transitions that succeed. The list holds the
-- statuses it went through, the last one first.
pub data Lived : AgentTask → List Status → Type 0 where
  created :
      (now : ℕ) (id workspace_id task_type title description : String)
      → Lived (new_task now id workspace_id task_type title description) (pending ∷ [])
  moved :
      {t : AgentTask} {visited : List Status} (now later : ℕ) (s : Status)
      → Lived t visited
      → (transition t now later s).1 ≡ none
      → Lived (transition t now later s).0 (s ∷ visited)

-- What holds of a task with the statuses it went through.
pub record LifeInv (t : AgentTask) (visited : List Status) : Type 0 where
  pub started : begun t.status ≡ true → is_some t.started_at ≡ true
  pub ran : contains_status visited running ≡ true → is_some t.started_at ≡ true
  pub finished : ended t.status ≡ true → is_some t.completed_at ≡ true
  pub last_one : (rest : List Status) × (visited ≡ t.status ∷ rest)
  pub validated : checked t.status ≡ true → contains_status visited validating ≡ true
  pub logged : length t.timeline + 1 ≡ length visited

mark-started :
    (t : AgentTask) (now : ℕ) (s : Status)
    → (s ≡ running → is_some (mark_times t now s).started_at ≡ true)
      × (is_some t.started_at ≡ true → is_some (mark_times t now s).started_at ≡ true)
      × (ended s ≡ true → is_some (mark_times t now s).completed_at ≡ true)
      × ((mark_times t now s).status ≡ t.status)
      × ((mark_times t now s).timeline ≡ t.timeline)
mark-started t now pending = ground arith
mark-started t now planning = ground arith
mark-started t now running = ground arith
mark-started t now validating = ground arith
mark-started t now awaiting_approval = ground arith
mark-started t now completed = ground arith
mark-started t now failed = ground arith
mark-started t now stuck = ground arith

is_running : (s : Status) → same_status s running ≡ true → s ≡ running
is_running pending h = ground arith
is_running planning h = ground arith
is_running running h = ground arith
is_running validating h = ground arith
is_running awaiting_approval h = ground arith
is_running completed h = ground arith
is_running failed h = ground arith
is_running stuck h = ground arith

-- What a transition that succeeds has checked and done.
moved-parts :
    (t : AgentTask) (now later : ℕ) (s : Status)
    → (transition t now later s).1 ≡ none
    → (can_transition_to t.status s ≡ true)
      × ((transition t now later s).0
          ≡ add_timeline_event
              (mark_times (record t { status = s }) now s)
              later
              (codes "status_change")
              (change_message t.status s)
              (codes "system"))
unfolding transition
moved-parts t now later s h = elim (Bool-cases (can_transition_to t.status s)) [
  | inl e ↦ rw (e) (refl, refl)
  | inr e ↦ absurd (ground (arith, h, e))
]

step-Inv :
    (t : AgentTask) (visited : List Status) (now later : ℕ) (s : Status)
    → LifeInv t visited
    → can_transition_to t.status s ≡ true
    → LifeInv
        (add_timeline_event
          (mark_times (record t { status = s }) now s)
          later
          (codes "status_change")
          (change_message t.status s)
          (codes "system"))
        (s ∷ visited)
step-Inv t visited now later s v can =
    let t' : AgentTask = record t { status = s } in
    let (a, b, c, d, e) = mark-started t' now s in
    let (rest, front) = v.last_one in
    let steps = begun-step t.status s in
    let checks = checked-step t.status s in
    record {
      started = λ h. elim (Bool-cases (same_status s running)) [
        | inl r ↦ a (is_running s r)
        | inr r ↦ b (v.started (ground (arith, can, steps, r, d, h)))
      ];
      ran = λ h. elim (Bool-cases (same_status s running)) [
        | inl r ↦ a (is_running s r)
        | inr r ↦ b (v.ran (ground (arith, r, h)))
      ];
      finished = λ h. c (rw (d) at h);
      last_one = (visited, ap (λ z. z ∷ visited) (sym d));
      validated = λ h. elim (Bool-cases (same_status t.status validating)) [
        | inl r ↦ ground (arith, front, r)
        | inr r ↦ ground (arith, v.validated (ground (arith, can, checks, r, d, h)))
      ];
      logged = rw (length-append) (omega (arith, ap (λ z. length z) e, v.logged));
    }

created-Inv :
    (now : ℕ) (id workspace_id task_type title description : String)
    → LifeInv (new_task now id workspace_id task_type title description) (pending ∷ [])
created-Inv now id workspace_id task_type title description = record {
  started = λ h. absurd (ground (arith, h));
  ran = λ h. absurd (ground (arith, h));
  finished = λ h. absurd (ground (arith, h));
  last_one = ([], refl);
  validated = λ h. absurd (ground (arith, h));
  logged = omega arith;
}

-- In every life of a task: once it was running it has a start time, whatever became of it since,
-- and so has one that is validating, awaits approval, is completed or stuck; a completed or failed
-- one has an end time; one that is completed or awaits approval went through validation, and the
-- timeline has one event for each transition.
pub Lived-Inv : {t : AgentTask} {visited : List Status} → Lived t visited → LifeInv t visited
Lived-Inv (created now id w k title d) = created-Inv now id w k title d
Lived-Inv (moved {t} {visited} now later s before accepted) =
    let (can, made) = moved-parts t now later s accepted in
    rw (made) (step-Inv t visited now later s (Lived-Inv before) can)

is_completed : (s : Status) → is_terminal s ≡ true → s ≡ completed
is_completed pending h = ground arith
is_completed planning h = ground arith
is_completed running h = ground arith
is_completed validating h = ground arith
is_completed awaiting_approval h = ground arith
is_completed completed h = ground arith
is_completed failed h = ground arith
is_completed stuck h = ground arith

-- Every transition of a completed task is an error that names both statuses, and leaves the task
-- as it is.
pub transition_completed :
    (t : AgentTask) (now later : ℕ) (s : Status)
    → is_terminal t.status ≡ true
    → transition t now later s ≡ (t, some (record { from = completed; to = s }))
unfolding transition
transition_completed t now later s h = rw (is_completed t.status h) refl
