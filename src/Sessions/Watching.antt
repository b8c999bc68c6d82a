-- ===== src/Sessions/Watching.antt =====
-- Watching sessions in any order of calls (internal/session/manager.go).
use cdev.Base.{
  ◌≡◌, refl, ◌∙◌, true, false, List, [], ◌∷◌, Option, none, some, String, is_empty, is_some, arith,
  Bool-cases, inl, inr,
}
use cdev.Base.Map.{Map, lookup, erase, lookup-erase}
use cdev.Base.Text.{Text, text_eq}
use cdev.Sessions.Watch.{
  WatchedSessionKey, key_eq, Watches, Streams, or_none, leave_all, forget_key, on_client_disconnect,
  resolved, stop_watching_live_session, unwatch_workspace_session, watch_workspace_session,
  watch_found, join_new, Found, select_target,
}
use cdev.Sessions.Watched.{
  WatchInv, in_set, in_set-leave_all, leave_all-watched, in_set-forget_key, join_stream-Inv,
  unwatch_target-Inv, set-in_set,
}

unwatch_workspace_session-Inv :
    (aliases : Map Text Text) (s : Streams) (client session_id : Text)
    → WatchInv s
    → WatchInv (unwatch_workspace_session aliases s client session_id)
unfolding unwatch_workspace_session
unwatch_workspace_session-Inv aliases s client session_id v =
    let watched = or_none (lookup client s.streamer_client_sessions) in
    elim (Bool-cases (is_empty watched)) [
      | inl nobody ↦ rw nobody v
      | inr some_key ↦
          rw some_key (
            unwatch_target-Inv s client (select_target (resolved aliases session_id) watched none)
              v)
    ]

watch_found-Inv :
    (s : Streams) (client : Text) (key : WatchedSessionKey) (found : Found) (o : Option String)
    → WatchInv s
    → WatchInv (watch_found s client key found o).0
watch_found-Inv s client key found (some e) v = v
watch_found-Inv s client key found none v =
    elim (Bool-cases (is_some (lookup key s.streamer_sessions))) [
      | inl old ↦ rw old (join_stream-Inv s client key v)
      | inr new ↦ rw new (on found.start_error)
    ]
  where
    on : (o : Option String) → WatchInv (join_new s client key o).0
    on none =
        let w = join_stream-Inv s client key v in record { agree = w.agree; watched = w.watched }
    on (some e) = v

left : Streams → Text → Streams
left s client = record s {
  streamer_sessions =
      leave_all client (or_none (lookup client s.streamer_client_sessions)) s.streamer_sessions;
  streamer_client_sessions = erase client s.streamer_client_sessions;
}

left-agree :
    (s : Streams) (client c : Text) (k : WatchedSessionKey)
    → WatchInv s
    → in_set c (lookup k (left s client).streamer_sessions)
      ≡ in_set k (lookup c (left s client).streamer_client_sessions)
unfolding left in_set
left-agree s client c k v = ground (
  arith,
  v.agree c k,
  in_set-leave_all client c (or_none (lookup client s.streamer_client_sessions)) k
      s.streamer_sessions,
  set-in_set k (lookup client s.streamer_client_sessions),
  lookup-erase client c s.streamer_client_sessions,
)

on_client_disconnect-Inv :
    (s : Streams) (client : Text) → WatchInv s → WatchInv (on_client_disconnect s client)
unfolding on_client_disconnect left
on_client_disconnect-Inv s client v =
    elim (Bool-cases (is_empty (or_none (lookup client s.streamer_client_sessions)))) [
      | inl nothing ↦ rw nothing v
      | inr some_key ↦ rw some_key left-Inv
    ]
  where
    left-Inv : WatchInv (left s client)
    left-Inv = record {
      agree = λ c k. left-agree s client c k v;
      watched = λ k w at.
          leave_all-watched client (or_none (lookup client s.streamer_client_sessions)) k w
            s.streamer_sessions (v.watched k) at;
    }

forgotten-agree :
    (s : Streams) (key k : WatchedSessionKey) (c : Text)
    → WatchInv s
    → in_set c (lookup k (erase key s.streamer_sessions))
      ≡ in_set k (lookup c (forget_key key s.streamer_client_sessions))
unfolding in_set
forgotten-agree s key k c v = ground (
  arith,
  v.agree c k,
  in_set-forget_key key k c s.streamer_client_sessions,
  lookup-erase key k s.streamer_sessions,
)

stop_watching_live_session-Inv :
    (s : Streams) (key : WatchedSessionKey)
    → WatchInv s
    → WatchInv (stop_watching_live_session s key)
unfolding stop_watching_live_session
stop_watching_live_session-Inv s key v =
    elim (Bool-cases (is_some (lookup key s.streamer_sessions))) [
      | inr nobody ↦ rw nobody (record { agree = v.agree; watched = v.watched })
      | inl watched ↦ rw watched (record {
        agree = λ c k. forgotten-agree s key k c v;
        watched = λ k w at. ground (arith, v.watched k w, lookup-erase key k s.streamer_sessions);
      })
    ]

-- A call; the aliases may change between calls.
pub data WatchCall : Type 0 where
  watches : Map Text Text → Text → Text → Text → Found → WatchCall
  unwatches : Map Text Text → Text → Text → WatchCall
  disconnects : Text → WatchCall
  stops : WatchedSessionKey → WatchCall

abbrev pub perform : Streams → WatchCall → Streams
perform s (watches aliases client workspace_id session_id found) =
    (watch_workspace_session aliases s client workspace_id session_id found).0
perform s (unwatches aliases client session_id) =
    unwatch_workspace_session aliases s client session_id
perform s (disconnects client) = on_client_disconnect s client
perform s (stops key) = stop_watching_live_session s key

unfoldable pub perform_all : Streams → List WatchCall → Streams
perform_all s [] = s
perform_all s (c ∷ cs) = perform_all (perform s c) cs

perform-Inv : (s : Streams) (c : WatchCall) → WatchInv s → WatchInv (perform s c)
unfolding watch_workspace_session
perform-Inv s (watches aliases client workspace_id session_id found) v =
    watch_found-Inv s client _ found found.file_error v
perform-Inv s (unwatches aliases client session_id) v =
    unwatch_workspace_session-Inv aliases s client session_id v
perform-Inv s (disconnects client) v = on_client_disconnect-Inv s client v
perform-Inv s (stops key) v = stop_watching_live_session-Inv s key v

-- Clients that watch sessions, stop watching, disconnect, and sessions that are stopped, in any order,
-- with any errors and aliases: when a client is among the watchers of a stream exactly if the stream
-- is among those of the client, and every stream has a watcher, both hold afterwards.
pub perform_all-Inv : (s : Streams) (cs : List WatchCall) → WatchInv s → WatchInv (perform_all s cs)
unfolding perform_all
perform_all-Inv s [] v = v
perform_all-Inv s (c ∷ cs) v = perform_all-Inv (perform s c) cs (perform-Inv s c v)

empty-in_set :
    (key : WatchedSessionKey) (o : Option Watches)
    → is_empty (or_none o) ≡ true
    → in_set key o ≡ false
unfolding in_set lookup
empty-in_set key none h = refl
empty-in_set key (some []) h = refl
empty-in_set key (some (x ∷ m)) h = absurd (cc)

disconnected-in_set :
    (s : Streams) (client : Text) (key : WatchedSessionKey)
    → in_set key (lookup client (on_client_disconnect s client).streamer_client_sessions) ≡ false
unfolding on_client_disconnect in_set
disconnected-in_set s client key =
    elim (Bool-cases (is_empty (or_none (lookup client s.streamer_client_sessions)))) [
      | inl nothing ↦
          rw nothing (empty-in_set key (lookup client s.streamer_client_sessions) nothing)
      | inr some_key ↦
          rw some_key (ground (arith, lookup-erase client client s.streamer_client_sessions))
    ]

-- A client that disconnects where clients and streams agree is then among the watchers of no stream.
pub on_client_disconnect-gone :
    (s : Streams) (client : Text) (key : WatchedSessionKey)
    → WatchInv s
    → in_set client (lookup key (on_client_disconnect s client).streamer_sessions) ≡ false
on_client_disconnect-gone s client key v =
    (on_client_disconnect-Inv s client v).agree client key ∙ disconnected-in_set s client key
