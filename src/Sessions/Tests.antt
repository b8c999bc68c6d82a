-- ===== src/Sessions/Tests.antt =====
-- Runs of the table of sessions (internal/session/manager.go).
use cdev.Base.{is_some, true, false, ◌≡◌, refl, arith, List, [], ◌∷◌, none, some}
use cdev.Base.Map.{Map, erase, insert, lookup}
use cdev.Base.Text.{Text, codes, text_eq, list_discrete, same}
use cdev.Sessions.{
  Session, Manager, new_manager, new_session, get_session, resolve_from, resolve_session_id,
  set_session_id, contains,
}
use cdev.Sessions.Resolve.{resolve_session_id-enough}
use cdev.Sessions.Update.{update_session_id}
use cdev.Sessions.Reached.{update_session_id-reached}
use cdev.Sessions.GitWatch.{GitWatchers, git_repo, start_git_watcher, stop_git_watcher}
use cdev.Sessions.Watch.{Streams, Found, key_eq}
use cdev.Sessions.Watched.{WatchInv, in_set}
use cdev.Sessions.Watching.{
  WatchCall, watches, unwatches, disconnects, perform_all, perform_all-Inv,
}

-- Two ids that are aliases of each other.
abbrev circle : Map Text Text
circle = (codes "a", codes "b") ∷ (codes "b", codes "a") ∷ []

resolve_session_id-enough_example :
    resolve_from 7 circle [] (codes "a") ≡ some (resolve_session_id circle (codes "a"))
resolve_session_id-enough_example = resolve_session_id-enough 7 circle (codes "a") (omega arith)

abbrev started : Session
started = new_session (codes "tmp") (codes "w") 3

-- The temporary id is already an alias once.
abbrev one_session : Manager
one_session = record new_manager {
  sessions = (codes "tmp", started) ∷ [];
  session_aliases = (codes "t0", codes "tmp") ∷ [];
}

update_session_id-reached_example :
    (get_session
        (update_session_id one_session (codes "w") (codes "t0") (codes "real"))
        (codes "t0")
      ≡ some (set_session_id started (codes "real")))
    × (get_session
          (update_session_id one_session (codes "w") (codes "t0") (codes "real"))
          (resolve_session_id one_session.session_aliases (codes "t0"))
        ≡ some (set_session_id started (codes "real")))
    × (get_session
          (update_session_id one_session (codes "w") (codes "t0") (codes "real"))
          (codes "real")
        ≡ some (set_session_id started (codes "real")))
unfolding lookup list_discrete get_session resolve_session_id resolve_from contains same
update_session_id-reached_example =
    update_session_id-reached one_session (codes "w") (codes "t0") (codes "real") started refl refl
      refl refl

abbrev no_streams : Streams
no_streams = record {
  streamer_sessions = [];
  streamer_client_sessions = [];
  active_sessions = [];
  active_session_workspaces = [];
}

no_streams-Inv : WatchInv no_streams
unfolding lookup in_set
no_streams-Inv = record { agree = λ client key. refl; watched = λ key watchers at. absurd (cc) }

abbrev found : Found
found = record { file_error = none; start_error = none }

abbrev viewing : List WatchCall
viewing =
    watches [] (codes "phone") (codes "w") (codes "s1") found
    ∷ watches [] (codes "pad") (codes "w") (codes "s1") found
    ∷ unwatches [] (codes "pad") (codes "s1")
    ∷ disconnects (codes "phone")
    ∷ []

perform_all-Inv_example : WatchInv (perform_all no_streams viewing)
perform_all-Inv_example = perform_all-Inv no_streams viewing no_streams-Inv

-- A client that never came takes the watcher from the one that did.
abbrev one_subscriber : GitWatchers
one_subscriber =
    (start_git_watcher true (record { git_watchers = []; git_watcher_counts = [] }) (codes "w")
      git_repo).0

others_watcher :
    (is_some (lookup (codes "w") one_subscriber.git_watchers) ≡ true)
    × (is_some (lookup (codes "w") (stop_git_watcher one_subscriber (codes "w")).git_watchers)
        ≡ false)
unfolding start_git_watcher stop_git_watcher lookup insert erase list_discrete
others_watcher = (refl, refl)
