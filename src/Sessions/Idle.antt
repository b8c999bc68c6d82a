-- ===== src/Sessions/Idle.antt =====
-- Stopping sessions (internal/session/manager.go): StopSession for a managed session, and the check
-- for idle ones. Stopping the agent's process can only log an error.
use cdev.Base.{
  ℕ, ◌+◌, ◌≡◌, ◌≢◌, refl, sym, subst, Bool, true, not, ◌&&◌, List, [], ◌∷◌, Option, none, some, ltb,
  if◌then◌else◌, arith, Bool-cases, inl, inr,
}
use cdev.Base.Map.{Map, lookup, insert, erase, Distinct, lookup-insert}
use cdev.Base.Text.{Text, same, text_eq, list_discrete}
use cdev.Sessions.{
  starting, failed, Status, stopped, running, stopping, is_running, is_live, Session, Manager,
  set_status, or_empty, contains, resolve_session_id,
}

-- stopSessionInternalWithContext, for the session under a key
unfoldable pub stop_session_internal : Manager → Text → Session → ℕ → Manager
stop_session_internal m key session now = if not (is_live session.status) then m else record m {
  sessions = insert key (set_status (set_status session stopping now) stopped now) m.sessions;
  active_sessions =
      if same (or_empty (lookup session.workspace_id m.active_sessions)) session.id
      then erase session.workspace_id m.active_sessions
      else m.active_sessions;
  active_session_workspaces = erase session.id m.active_session_workspaces;
}

abbrev stop_found : Manager → Text → ℕ → Option Session → Option Manager
stop_found m key now none = none
stop_found m key now (some session) = some (stop_session_internal m key session now)

-- StopSession for a session that cdev started; none when there is none with the id
unfoldable pub stop_session : Manager → Text → ℕ → Option Manager
stop_session m session_id now =
    let key = resolve_session_id m.session_aliases session_id in
    stop_found m key now (lookup key m.sessions)

-- m.idleTimeout
abbrev pub idle_timeout : ℕ
idle_timeout = 1800000000000

-- Running, and not active for longer than the timeout.
abbrev pub is_idle : ℕ → Session → Bool
is_idle now s = is_running s.status && ltb (s.last_active + idle_timeout) now

-- The loop of checkIdleSessions over the entries that are left.
unfoldable pub check_entries : ℕ → Map Text Session → Manager → Manager
check_entries now [] m = m
check_entries now ((key, session) ∷ rest) m =
    check_entries now rest
      (if is_idle now session then stop_session_internal m key session now else m)

-- checkIdleSessions
unfoldable pub check_idle_sessions : Manager → ℕ → Manager
check_idle_sessions m now = check_entries now m.sessions m

-- RegisterWorkspace
unfoldable pub register_workspace : Manager → Text → Manager
register_workspace m workspace_id =
    if contains workspace_id m.workspaces
    then m
    else record m { workspaces = workspace_id ∷ m.workspaces }

abbrev runs_in : Text → Session → Bool
runs_in workspace_id s = same s.workspace_id workspace_id && is_running s.status

-- CountActiveSessionsForWorkspace
unfoldable pub count_active_sessions : Text → Map Text Session → ℕ
count_active_sessions workspace_id [] = 0
count_active_sessions workspace_id ((_, s) ∷ m) =
    let rest = count_active_sessions workspace_id m in
    if runs_in workspace_id s then rest + 1 else rest

unfoldable pub without : Text → List Text → List Text
without x [] = []
without x (y ∷ ys) = if same y x then without x ys else y ∷ without x ys

-- UnregisterWorkspace: none while a session runs in the workspace
unfoldable pub unregister_workspace : Manager → Text → Option Manager
unregister_workspace m workspace_id =
    if ltb 0 (count_active_sessions workspace_id m.sessions)
    then none
    else some (record m { workspaces = without workspace_id m.workspaces })

-- What the check makes of a session.
abbrev pub checked : ℕ → Option Session → Option Session
checked now none = none
checked now (some s) =
    some (if is_idle now s then set_status (set_status s stopping now) stopped now else s)

idle-is_live : (now : ℕ) (s : Session) → is_idle now s ≡ true → is_live s.status ≡ true
idle-is_live now s h = on s.status (ground arith)
  where
    on : (t : Status) → is_running t ≡ true → is_live t ≡ true
    on running e = refl
    on stopped e = absurd (cc)
    on starting e = refl
    on stopping e = absurd (cc)
    on failed e = absurd (cc)

step : ℕ → Text → Session → Manager → Manager
step now key s m = if is_idle now s then stop_session_internal m key s now else m

step_self :
    (now : ℕ) (key : Text) (s : Session) (m : Manager)
    → lookup key m.sessions ≡ some s
    → lookup key (step now key s m).sessions ≡ checked now (some s)
unfolding step stop_session_internal
step_self now key s m at = elim (Bool-cases (is_idle now s)) [
  | inl idle ↦
      rw (idle, idle-is_live now s idle)
        (ground (
          arith,
          lookup-insert key key (set_status (set_status s stopping now) stopped now) m.sessions,
        ))
  | inr active ↦ rw active at
]

step-other :
    (now : ℕ) (key j : Text) (s : Session) (m : Manager) (o : Option Session)
    → key ≢ j
    → lookup j m.sessions ≡ o
    → lookup j (step now key s m).sessions ≡ o
unfolding step stop_session_internal
step-other now key j s m o ne at = elim (Bool-cases (is_idle now s)) [
  | inl idle ↦
      rw (idle, idle-is_live now s idle)
        (ground (
          arith,
          lookup-insert key j (set_status (set_status s stopping now) stopped now) m.sessions,
        ))
  | inr active ↦ rw active at
]

check_entries-other :
    (now : ℕ) (rest : Map Text Session) (m : Manager) (j : Text) (o : Option Session)
    → lookup j rest ≡ none
    → lookup j m.sessions ≡ o
    → lookup j (check_entries now rest m).sessions ≡ o
unfolding check_entries lookup step
check_entries-other now [] m j o h at = at
check_entries-other now ((key, s) ∷ rest) m j o h at =
    check_entries-other now rest (step now key s m) j o (ground arith)
      (step-other now key j s m o (ground arith) at)

check_entries-lookup :
    (now : ℕ) (rest : Map Text Session) (m : Manager) (j : Text) (s : Session)
    → Distinct rest
    → lookup j rest ≡ some s
    → lookup j m.sessions ≡ some s
    → lookup j (check_entries now rest m).sessions ≡ checked now (some s)
unfolding check_entries lookup step
check_entries-lookup now [] m j s d h at = ground arith
check_entries-lookup now ((key, x) ∷ rest) m j s d h at = elim (list_discrete key j) [
  | yes p ↦
      let eq : x ≡ s = ground arith in
      check_entries-other now rest (step now key x m) j (checked now (some s)) (ground arith) (
        subst (λ k. lookup k (step now key x m).sessions ≡ checked now (some s)) p
          (subst (λ y. lookup key (step now key y m).sessions ≡ checked now (some s)) (sym eq)
            (step_self now key s m (ground arith))))
  | no q ↦
      check_entries-lookup now rest (step now key x m) j s d.1 (ground arith)
        (step-other now key j x m (some s) q at)
]

checked-cases :
    (now : ℕ) (m : Manager) (j : Text) (o : Option Session)
    → Distinct m.sessions
    → lookup j m.sessions ≡ o
    → lookup j (check_entries now m.sessions m).sessions ≡ checked now o
checked-cases now m j none d at = check_entries-other now m.sessions m j none at at
checked-cases now m j (some s) d at = check_entries-lookup now m.sessions m j s d at at

-- The periodic check, in any order of the map: every session that runs and was not active for longer
-- than 30 minutes is stopped, and every other session stays as it is.
pub check_idle_sessions-lookup :
    (now : ℕ) (m : Manager) (id : Text)
    → Distinct m.sessions
    → lookup id (check_idle_sessions m now).sessions ≡ checked now (lookup id m.sessions)
unfolding check_idle_sessions
check_idle_sessions-lookup now m id d = checked-cases now m id (lookup id m.sessions) d refl
