-- ===== src/Task.antt =====
-- internal/domain/task: the life of an agent task (task.go, state.go). `now` is the time a method
-- reads. Fields that no method of the package reads (anchors, policy, session, branch, prompt) are
-- left out of the record.
pub mod Life
mod Tests
use cdev.Base.{
  String, ℕ, ◌+◌, Bool, true, false, List, [], ◌∷◌, ◌++◌, Option, none, some, if◌then◌else◌,
}
use cdev.Base.Text.{Text, codes, same}

pub data Status : Type 0 where
  pending planning running validating awaiting_approval completed failed stuck : Status

-- The string of a status.
abbrev pub status_text : Status → Text
status_text pending = codes "pending"
status_text planning = codes "planning"
status_text running = codes "running"
status_text validating = codes "validating"
status_text awaiting_approval = codes "awaiting_approval"
status_text completed = codes "completed"
status_text failed = codes "failed"
status_text stuck = codes "stuck"

-- s == t on statuses
abbrev pub same_status : Status → Status → Bool
same_status pending pending = true
same_status planning planning = true
same_status running running = true
same_status validating validating = true
same_status awaiting_approval awaiting_approval = true
same_status completed completed = true
same_status failed failed = true
same_status stuck stuck = true
same_status _ _ = false

-- validTransitions
abbrev pub valid_transitions : Status → List Status
valid_transitions pending = planning ∷ running ∷ failed ∷ []
valid_transitions planning = running ∷ failed ∷ []
valid_transitions running = validating ∷ failed ∷ stuck ∷ []
valid_transitions validating = awaiting_approval ∷ completed ∷ failed ∷ running ∷ []
valid_transitions awaiting_approval = completed ∷ running ∷ failed ∷ []
valid_transitions completed = []
valid_transitions failed = pending ∷ running ∷ []
valid_transitions stuck = pending ∷ running ∷ failed ∷ []

-- IsTerminal
abbrev pub is_terminal : Status → Bool
is_terminal s = same_status s completed

-- The loop of CanTransitionTo
abbrev pub contains_status : List Status → Status → Bool
contains_status [] target = false
contains_status (a ∷ allowed) target =
    if same_status a target then true else contains_status allowed target

-- CanTransitionTo
abbrev pub can_transition_to : Status → Status → Bool
can_transition_to s target = contains_status (valid_transitions s) target

abbrev pub all_statuses : List Status
all_statuses =
    pending ∷ planning ∷ running ∷ validating ∷ awaiting_approval ∷ completed ∷ failed ∷ stuck ∷ []

abbrev pub text_in : List Status → Text → Bool
text_in [] s = false
text_in (status ∷ rest) s = if same (status_text status) s then true else text_in rest s

-- IsValidStatus
unfoldable pub is_valid_status : Text → Bool
is_valid_status s = text_in all_statuses s

-- Event, without its data
pub record Event : Type 0 where
  pub timestamp : ℕ
  pub type : Text
  pub message : Text
  pub actor : Text

pub record AgentTask : Type 0 where
  pub id : String
  pub workspace_id : String
  pub task_type : String
  pub title : String
  pub description : String
  pub severity : String
  pub labels : List String
  pub status : Status
  pub assignee : String
  pub timeline : List Event
  pub created_by : String
  pub created_at : ℕ
  pub started_at : Option ℕ
  pub completed_at : Option ℕ

-- NewTask, for a generated id
abbrev pub new_task : ℕ → String → String → String → String → String → AgentTask
new_task now id workspace_id task_type title description = record {
  id = id;
  workspace_id = workspace_id;
  task_type = task_type;
  title = title;
  description = description;
  severity = "medium";
  labels = [];
  status = pending;
  assignee = "cdev";
  timeline = [];
  created_by = "system";
  created_at = now;
  started_at = none;
  completed_at = none;
}

-- AddTimelineEvent of NewTimelineEvent
abbrev pub add_timeline_event : AgentTask → ℕ → Text → Text → Text → AgentTask
add_timeline_event t now event_type message actor = record t {
  timeline =
      t.timeline
      ++ (record { timestamp = now; type = event_type; message = message; actor = actor }) ∷ [];
}

abbrev pub first_start : Option ℕ → ℕ → Option ℕ
first_start none now = some now
first_start (some t) now = some t

-- The switch on the new status.
abbrev pub mark_times : AgentTask → ℕ → Status → AgentTask
mark_times t now running = record t { started_at = first_start t.started_at now }
mark_times t now completed = record t { completed_at = some now }
mark_times t now failed = record t { completed_at = some now }
mark_times t now _ = t

abbrev pub change_message : Status → Status → Text
change_message old new =
    codes "Status changed: " ++ status_text old ++ codes " → " ++ status_text new

-- TransitionError
pub record TransitionError : Type 0 where
  pub from : Status
  pub to : Status

-- Transition: the clock is read twice, for the lifecycle times and for the timeline
unfoldable pub transition : AgentTask → ℕ → ℕ → Status → AgentTask × Option TransitionError
transition t now later new_status =
    if can_transition_to t.status new_status
    then (
      add_timeline_event (mark_times (record t { status = new_status }) now new_status) later
          (codes "status_change") (change_message t.status new_status) (codes "system"),
      none,
    )
    else (t, some (record { from = t.status; to = new_status }))
