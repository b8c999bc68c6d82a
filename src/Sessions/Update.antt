-- ===== src/Sessions/Update.antt =====
-- The real id of a session becomes known (updateSessionID of internal/session/manager.go).
use cdev.Base.{◌||◌, [], ◌∷◌, Option, none, some, if◌then◌else◌, is_empty, is_some}
use cdev.Base.Map.{Map, lookup, insert, erase}
use cdev.Base.Text.{Text, same, text_eq}
use cdev.Sessions.{Session, Manager, resolve_session_id, or_empty, trim_space, set_session_id}

-- strings.TrimSpace(m.sessionProjectPaths[id])
abbrev pub path_of : Manager → Text → Text
path_of m id = trim_space (or_empty (lookup id m.session_project_paths))

-- The loop that turns the aliases of one id to another.
unfoldable pub redirect : Text → Text → Map Text Text → Map Text Text
redirect old new [] = []
redirect old new ((alias, target) ∷ m) =
    (alias, if same target old then new else target) ∷ redirect old new m

abbrev pub keep_path : Text → Text → Text → Text → Map Text Text → Map Text Text
keep_path path real temporary resolved paths =
    if is_empty path
    then paths
    else (let both = insert temporary path (insert real path paths) in
        if same resolved temporary then both else insert resolved path both)

abbrev pub first_path : Text → Text → Text
first_path a b = if is_empty a then b else a

abbrev pub moved : Manager → Text → Text → Text → Text → Option Session → Manager
moved m workspace_id temporary resolved real none = m
moved m workspace_id temporary resolved real (some session) =
    let active = or_empty (lookup workspace_id m.active_sessions) in
    record {
      sessions =
          insert real (set_session_id session real) (erase resolved (erase temporary m.sessions));
      workspaces = m.workspaces;
      active_sessions =
          if same active resolved || same active temporary
          then insert workspace_id real m.active_sessions
          else m.active_sessions;
      active_session_workspaces =
          insert real workspace_id (erase resolved (erase temporary m.active_session_workspaces));
      session_aliases =
          redirect resolved real (insert resolved real (insert temporary real m.session_aliases));
      session_project_paths =
          keep_path (first_path (path_of m resolved) (path_of m temporary)) real temporary resolved
            (erase temporary (erase resolved m.session_project_paths));
    }

abbrev pub already_resolved : Manager → Text → Text → Manager
already_resolved m temporary real = record m {
  session_aliases = insert temporary real m.session_aliases;
  session_project_paths =
      if is_empty (path_of m temporary)
      then m.session_project_paths
      else insert real (path_of m temporary) m.session_project_paths;
}

abbrev pub already_there : Manager → Text → Text → Text → Manager
already_there m temporary resolved real = record m {
  session_aliases =
      if same resolved temporary
      then insert temporary real m.session_aliases
      else insert resolved real (insert temporary real m.session_aliases);
  session_project_paths =
      keep_path (path_of m resolved) real temporary resolved m.session_project_paths;
}

-- updateSessionID
unfoldable pub update_session_id : Manager → Text → Text → Text → Manager
update_session_id m workspace_id temporary real =
    let resolved = resolve_session_id m.session_aliases temporary in
    if same resolved real
    then already_resolved m temporary real
    else if is_some (lookup real m.sessions)
    then already_there m temporary resolved real
    else moved m workspace_id temporary resolved real (lookup resolved m.sessions)
