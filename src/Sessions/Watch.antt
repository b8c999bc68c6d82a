-- ===== src/Sessions/Watch.antt =====
-- Who watches which session (internal/session/manager.go): a stream of a session's file has a set of
-- clients, and a client a set of streams. A set is a map to units. The streamers themselves are left
-- out, and the git watchers are in Sessions/GitWatch.antt; what looking for the file and starting a
-- streamer return are arguments. Of the maps of Manager these are the ones that the methods change.
use cdev.Base.{
  Bool, true, false, not, ◌&&◌, ◌||◌, ◌≡◌, ap, List, [], ◌∷◌, Option, none, some, String, ltb, ◌==◌,
  if◌then◌else◌, is_empty, is_some, Eq,
}
use cdev.Base.Map.{Map, lookup, insert, erase}
use cdev.Base.Text.{Text, same, text_eq, list_discrete}
use cdev.Sessions.{resolve_session_id, trim_space, or_empty}

-- watchedSessionKey: workspace and session
abbrev pub WatchedSessionKey : Type 0
WatchedSessionKey = Text × Text

unfoldable pub key_discrete : Discrete WatchedSessionKey
unfolding list_discrete
key_discrete (a, b) (c, d) = both (list_discrete a c) (list_discrete b d)
  where
    both : Dec (a ≡ c) → Dec (b ≡ d) → Dec (◌≡◌ {A = WatchedSessionKey} (a, b) (c, d))
    both (yes p) (yes q) = yes (λ i. (p i, q i))
    both (yes p) (no q) = no (λ r. q (ap (λ (k : WatchedSessionKey). k.1) r))
    both (no p) x = no (λ r. p (ap (λ (k : WatchedSessionKey). k.0) r))

instance abbrev pub key_eq : Eq WatchedSessionKey
key_eq = record { dec_eq = key_discrete }

pub data Included : Type 0 where
  included : Included

abbrev pub Clients : Type 0
Clients = Map Text Included

abbrev pub Watches : Type 0
Watches = Map WatchedSessionKey Included

pub record Streams : Type 0 where
  pub streamer_sessions : Map WatchedSessionKey Clients
  pub streamer_client_sessions : Map Text Watches
  pub active_sessions : Map Text Text
  pub active_session_workspaces : Map Text Text

abbrev pub or_none {ℓ} : {A : Type ℓ} → Option (List A) → List A
or_none none = []
or_none (some m) = m

-- The client joins the stream, which is made if it is missing.
unfoldable pub join_stream : Streams → Text → WatchedSessionKey → Streams
join_stream s client key = record s {
  streamer_sessions =
      insert key (insert client included (or_none (lookup key s.streamer_sessions)))
        s.streamer_sessions;
  streamer_client_sessions =
      insert client (insert key included (or_none (lookup client s.streamer_client_sessions)))
        s.streamer_client_sessions;
}

-- What WatchWorkspaceSession finds: an error of the project path or of the session file, or what
-- starting a new streamer returns.
pub record Found : Type 0 where
  pub file_error : Option String
  pub start_error : Option String

abbrev pub join_new : Streams → Text → WatchedSessionKey → Option String → Streams × Option String
join_new s client key (some e) = (s, some e)
join_new s client key none = (
  record (join_stream s client key) { active_sessions = insert key.0 key.1 s.active_sessions },
  none,
)

abbrev pub watch_found :
    Streams → Text → WatchedSessionKey → Found → Option String → Streams × Option String
watch_found s client key found (some e) = (s, some e)
watch_found s client key found none =
    if is_some (lookup key s.streamer_sessions)
    then (join_stream s client key, none)
    else join_new s client key found.start_error

-- WatchWorkspaceSession, for the id that the aliases lead to; the error is none if it watches
unfoldable pub watch_workspace_session :
    Map Text Text → Streams → Text → Text → Text → Found → Streams × Option String
watch_workspace_session aliases s client workspace_id session_id found =
    watch_found s client (workspace_id, resolve_session_id aliases session_id) found
      found.file_error

-- s < t
unfoldable pub before : Text → Text → Bool
before [] [] = false
before [] (d ∷ t) = true
before (c ∷ s) [] = false
before (c ∷ s) (d ∷ t) = if ltb c d then true else c == d && before s t

abbrev pub key_before : WatchedSessionKey → WatchedSessionKey → Bool
key_before (w, a) (v, b) = before w v || (same w v && before a b)

abbrev pub better : WatchedSessionKey → Option WatchedSessionKey → Option WatchedSessionKey
better key none = some key
better key (some target) = if key_before key target then some key else some target

-- The loop of UnwatchWorkspaceSession that selects.
unfoldable pub select_target : Text → Watches → Option WatchedSessionKey → Option WatchedSessionKey
select_target session_id [] target = target
select_target session_id ((key, _) ∷ m) target =
    if not (is_empty session_id) && not (same key.1 session_id)
    then select_target session_id m target
    else select_target session_id m (better key target)

-- m[k] = v, or delete(m, k) when the set v has become empty
abbrev pub put {ℓ} : {K V : Type ℓ} ⦃e : Eq K⦄ → K → List V → Map K (List V) → Map K (List V)
put k v m = if is_empty v then erase k m else insert k v m

unfoldable pub leave_client : Text → WatchedSessionKey → Map Text Watches → Map Text Watches
leave_client client key m = put client (erase key (or_none (lookup client m))) m

abbrev pub leave_found :
    Text
    → WatchedSessionKey
    → Map WatchedSessionKey Clients
    → Option Clients
    → Map WatchedSessionKey Clients
leave_found client key m none = m
leave_found client key m (some watchers) = put key (erase client watchers) m

-- delete(stream.watchers, clientID), and the end of a stream that nobody watches
unfoldable pub leave_stream :
    Text → WatchedSessionKey → Map WatchedSessionKey Clients → Map WatchedSessionKey Clients
leave_stream client key m = leave_found client key m (lookup key m)

abbrev pub unwatch_target : Streams → Text → Option WatchedSessionKey → Streams
unwatch_target s client none = s
unwatch_target s client (some key) = record s {
  streamer_sessions = leave_stream client key s.streamer_sessions;
  streamer_client_sessions = leave_client client key s.streamer_client_sessions;
}

abbrev pub resolved : Map Text Text → Text → Text
resolved aliases session_id =
    let id = trim_space session_id in if is_empty id then id else resolve_session_id aliases id

-- UnwatchWorkspaceSession, without the information that it returns
unfoldable pub unwatch_workspace_session : Map Text Text → Streams → Text → Text → Streams
unwatch_workspace_session aliases s client session_id =
    let watched = or_none (lookup client s.streamer_client_sessions) in
    if is_empty watched
    then s
    else unwatch_target s client (select_target (resolved aliases session_id) watched none)

-- The loop of OnClientDisconnect.
unfoldable pub leave_all :
    Text → Watches → Map WatchedSessionKey Clients → Map WatchedSessionKey Clients
leave_all client [] m = m
leave_all client ((key, _) ∷ keys) m = leave_all client keys (leave_stream client key m)

-- OnClientDisconnect, without the git watchers
unfoldable pub on_client_disconnect : Streams → Text → Streams
on_client_disconnect s client =
    let watched = or_none (lookup client s.streamer_client_sessions) in
    if is_empty watched then s else record s {
      streamer_sessions = leave_all client watched s.streamer_sessions;
      streamer_client_sessions = erase client s.streamer_client_sessions;
    }

unfoldable pub forget_key : WatchedSessionKey → Map Text Watches → Map Text Watches
forget_key key [] = []
forget_key key ((client, watched) ∷ m) = (client, erase key watched) ∷ forget_key key m

-- delete(m.streamerSessions, key), and the key of every client
abbrev pub forget_stream : Streams → WatchedSessionKey → Streams
forget_stream s key = record s {
  streamer_sessions = erase key s.streamer_sessions;
  streamer_client_sessions = forget_key key s.streamer_client_sessions;
}

-- The second part of stopWatchingLiveSession.
abbrev pub clear_active : Streams → WatchedSessionKey → Streams
clear_active s key = record s {
  active_sessions =
      if same (or_empty (lookup key.0 s.active_sessions)) key.1
      then erase key.0 s.active_sessions
      else s.active_sessions;
  active_session_workspaces = erase key.1 s.active_session_workspaces;
}

-- stopWatchingLiveSession
unfoldable pub stop_watching_live_session : Streams → WatchedSessionKey → Streams
stop_watching_live_session s key =
    if is_some (lookup key s.streamer_sessions)
    then clear_active (forget_stream s key) key
    else clear_active s key
