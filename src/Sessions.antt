-- ===== src/Sessions.antt =====
-- internal/session: the table of agent sessions (session.go, manager.go), as far as it is kept in the
-- maps of Manager. A session gets its real id only after the agent has started, and the temporary
-- one stays as an alias. The processes behind the sessions, the file watchers and the published
-- events are left out; what reads the clock is an argument.
pub mod Resolve
pub mod Update
pub mod Reached
pub mod Idle
pub mod GitWatch
pub mod Watch
pub mod Watched
pub mod Watching
mod Tests
use mathlib.Core.List.{reverse}
use cdev.Base.{
  ℕ, zero, suc, ◌+◌, Bool, true, false, not, ◌&&◌, ◌||◌, List, [], ◌∷◌, Option, none, some, ltb,
  if◌then◌else◌, length, is_empty, is_some,
}
use cdev.Base.Map.{Map, lookup, insert, erase}
use cdev.Base.Text.{Text, same, text_eq}
use cdev.Base.Text.Fields.{is_space}

pub data Status : Type 0 where
  stopped starting running stopping failed : Status

abbrev pub is_running : Status → Bool
is_running running = true
is_running _ = false

-- GetStatus() == StatusRunning or StatusStarting
abbrev pub is_live : Status → Bool
is_live running = true
is_live starting = true
is_live _ = false

pub record Session : Type 0 where
  pub id : Text
  pub workspace_id : Text
  pub project_path : Text
  pub status : Status
  pub started_at : ℕ
  pub last_active : ℕ
  pub error : Text

-- NewSession
abbrev pub new_session : Text → Text → ℕ → Session
new_session id workspace_id now = record {
  id = id;
  workspace_id = workspace_id;
  project_path = [];
  status = stopped;
  started_at = now;
  last_active = now;
  error = [];
}

-- SetStatus
abbrev pub set_status : Session → Status → ℕ → Session
set_status s status now = record s { status = status; last_active = now }

-- SetError, with the text of the error, if there is one
abbrev pub set_error : Session → Option Text → ℕ → Session
set_error s none now = record s { status = failed; last_active = now }
set_error s (some e) now = record s { status = failed; error = e; last_active = now }

-- UpdateLastActive
abbrev pub update_last_active : Session → ℕ → Session
update_last_active s now = record s { last_active = now }

-- SetSessionID
abbrev pub set_session_id : Session → Text → Session
set_session_id s new_id = record s { id = new_id }

pub record Manager : Type 0 where
  pub sessions : Map Text Session
  pub workspaces : List Text
  pub active_sessions : Map Text Text
  pub active_session_workspaces : Map Text Text
  pub session_aliases : Map Text Text
  pub session_project_paths : Map Text Text

-- NewManager
abbrev pub new_manager : Manager
new_manager = record {
  sessions = [];
  workspaces = [];
  active_sessions = [];
  active_session_workspaces = [];
  session_aliases = [];
  session_project_paths = [];
}

-- m[k], with the empty string for a missing key
abbrev pub or_empty : Option Text → Text
or_empty none = []
or_empty (some s) = s

unfoldable pub contains : Text → List Text → Bool
contains x [] = false
contains x (y ∷ ys) = same x y || contains x ys

-- One turn of the loop of resolveSessionIDLocked, and what follows it.
abbrev pub turn : List Text → Text → Option Text → (Text → Option Text) → Option Text
turn visited current none go_on = some current
turn visited current (some next) go_on =
    if is_empty next || same next current
    then some current
    else if contains current visited
    then some current
    else go_on next

-- The loop of resolveSessionIDLocked, with the number of turns that it may take; none when they are
-- used up.
unfoldable pub resolve_from : ℕ → Map Text Text → List Text → Text → Option Text
resolve_from zero aliases visited current = none
resolve_from (suc n) aliases visited current =
    turn visited current (lookup current aliases) (resolve_from n aliases (current ∷ visited))

abbrev pub or_else : Text → Option Text → Text
or_else d none = d
or_else d (some s) = s

-- resolveSessionIDLocked
unfoldable pub resolve_session_id : Map Text Text → Text → Text
resolve_session_id aliases id = or_else id (resolve_from (suc (length aliases)) aliases [] id)

-- GetSession
unfoldable pub get_session : Manager → Text → Option Session
get_session m id = lookup (resolve_session_id m.session_aliases id) m.sessions

-- ActivateSession: none is "workspace not found"
unfoldable pub activate_session : Manager → Text → Text → Option Manager
activate_session m workspace_id session_id =
    if contains workspace_id m.workspaces
    then some (record m {
      active_sessions = insert workspace_id session_id m.active_sessions;
      active_session_workspaces = insert session_id workspace_id m.active_session_workspaces;
    })
    else none

-- GetActiveSession
abbrev pub get_active_session : Manager → Text → Text
get_active_session m workspace_id = or_empty (lookup workspace_id m.active_sessions)

abbrev skip_space : Text → Text
skip_space [] = []
skip_space (c ∷ s) = if is_space c then skip_space s else c ∷ s

-- strings.TrimSpace
unfoldable pub trim_space : Text → Text
unfolding is_space
trim_space s = reverse (skip_space (reverse (skip_space s)))
