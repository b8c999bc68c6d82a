-- ===== src/Sessions/Watched.antt =====
-- The streams and the clients agree (internal/session/manager.go).
use cdev.Base.{
  ◌≡◌, ◌≢◌, refl, Bool, true, false, ◌&&◌, [], ◌∷◌, Option, none, some, if◌then◌else◌, is_some, Eq,
  test, arith,
}
use cdev.Base.Map.{Map, lookup, insert, erase, lookup-insert, lookup-erase}
use cdev.Base.Text.{Text, text_eq, list_discrete}
use cdev.Sessions.Watch.{
  WatchedSessionKey, key_eq, key_discrete, Included, included, Clients, Watches, Streams, or_none,
  join_stream, put, leave_client, leave_found, leave_stream, leave_all, forget_key, unwatch_target,
}

module _ {A : Type 0} ⦃a : Eq A⦄ where
  -- The element is in the set, if there is one.
  unfoldable pub in_set : A → Option (Map A Included) → Bool
  in_set x none = false
  in_set x (some m) = is_some (lookup x m)

  in_set-erase_none :
      (x y : A) → in_set y (some (erase x [])) ≡ (if test (a.dec_eq x y) then false else false)
  unfolding in_set lookup erase
  in_set-erase_none x y = ground arith

  in_set-erase :
      (x y : A) (o : Option (Map A Included))
      → in_set y (some (erase x (or_none o))) ≡ (if test (a.dec_eq x y) then false else in_set y o)
  unfolding in_set lookup
  in_set-erase x y none = in_set-erase_none x y
  in_set-erase x y (some m) = ground (arith, lookup-erase x y m)

  in_set-insert :
      (x y : A) (o : Option (Map A Included))
      → in_set y (some (insert x included (or_none o)))
        ≡ (if test (a.dec_eq x y) then true else in_set y o)
  unfolding in_set lookup
  in_set-insert x y none = ground (arith, lookup-insert x y included (or_none none))
  in_set-insert x y (some m) = ground (arith, lookup-insert x y included m)

module _ {K A : Type 0} ⦃k : Eq K⦄ ⦃a : Eq A⦄ where
  in_set-put :
      (i j : K) (x : A) (v : Map A Included) (m : Map K (Map A Included))
      → in_set x (lookup j (put i v m))
        ≡ (if test (k.dec_eq i j) then in_set x (some v) else in_set x (lookup j m))
  unfolding in_set lookup
  in_set-put i j x [] m = ground (arith, lookup-erase i j m)
  in_set-put i j x (e ∷ v) m = ground (arith, lookup-insert i j (e ∷ v) m)

-- A client is among the watchers of a stream exactly if the stream is among those of the client, and
-- a stream that is kept has a watcher.
pub record WatchInv (s : Streams) : Type 0 where
  pub agree :
      (client : Text) (key : WatchedSessionKey)
      → in_set client (lookup key s.streamer_sessions)
        ≡ in_set key (lookup client s.streamer_client_sessions)
  pub watched :
      (key : WatchedSessionKey) (watchers : Clients)
      → lookup key s.streamer_sessions ≡ some watchers
      → watchers ≢ []

put-watched :
    (i j : WatchedSessionKey) (v w : Clients) (m : Map WatchedSessionKey Clients)
    → (lookup j m ≡ some w → w ≢ [])
    → lookup j (put i v m) ≡ some w
    → w ≢ []
put-watched i j [] w m h at = ground (arith, lookup-erase i j m)
put-watched i j (e ∷ v) w m h at = ground (arith, lookup-insert i j (e ∷ v) m)

leave_found-watched :
    (client : Text) (key j : WatchedSessionKey) (o : Option Clients) (w : Clients)
    (m : Map WatchedSessionKey Clients)
    → (lookup j m ≡ some w → w ≢ [])
    → lookup j (leave_found client key m o) ≡ some w
    → w ≢ []
leave_found-watched client key j none w m h at = h at
leave_found-watched client key j (some v) w m h at = put-watched key j (erase client v) w m h at

leave_stream-watched :
    (client : Text) (key j : WatchedSessionKey) (w : Clients) (m : Map WatchedSessionKey Clients)
    → (lookup j m ≡ some w → w ≢ [])
    → lookup j (leave_stream client key m) ≡ some w
    → w ≢ []
unfolding leave_stream
leave_stream-watched client key j w m h at =
    leave_found-watched client key j (lookup key m) w m h at

in_set-leave_found :
    (client x : Text) (key j : WatchedSessionKey) (o : Option Clients)
    (m : Map WatchedSessionKey Clients)
    → lookup key m ≡ o
    → in_set x (lookup j (leave_found client key m o)) ≡ (
        if test (key_discrete key j) && test (list_discrete client x)
        then false
        else in_set x (lookup j m))
unfolding in_set
in_set-leave_found client x key j none m e = ground arith
in_set-leave_found client x key j (some v) m e =
    ground (arith, in_set-put key j x (erase client v) m, in_set-erase client x (some v))

in_set-leave_stream :
    (client x : Text) (key j : WatchedSessionKey) (m : Map WatchedSessionKey Clients)
    → in_set x (lookup j (leave_stream client key m)) ≡ (
        if test (key_discrete key j) && test (list_discrete client x)
        then false
        else in_set x (lookup j m))
unfolding leave_stream
in_set-leave_stream client x key j m = in_set-leave_found client x key j (lookup key m) m refl

-- A client that leaves all its streams.
pub in_set-leave_all :
    (client x : Text) (keys : Watches) (j : WatchedSessionKey) (m : Map WatchedSessionKey Clients)
    → in_set x (lookup j (leave_all client keys m)) ≡ (
        if in_set j (some keys) && test (list_discrete client x)
        then false
        else in_set x (lookup j m))
unfolding leave_all in_set lookup
in_set-leave_all client x [] j m = refl
in_set-leave_all client x ((key, u) ∷ keys) j m = ground (
  arith,
  in_set-leave_all client x keys j (leave_stream client key m),
  in_set-leave_stream client x key j m,
)

pub leave_all-watched :
    (client : Text) (keys : Watches) (j : WatchedSessionKey) (w : Clients)
    (m : Map WatchedSessionKey Clients)
    → ((v : Clients) → lookup j m ≡ some v → v ≢ [])
    → lookup j (leave_all client keys m) ≡ some w
    → w ≢ []
unfolding leave_all leave_stream
leave_all-watched client [] j w m h at = h w at
leave_all-watched client ((key, u) ∷ keys) j w m h at =
    leave_all-watched client keys j w (leave_stream client key m)
      (λ v g. leave_found-watched client key j (lookup key m) v m (h v) g) at

pub in_set-forget_key :
    (key j : WatchedSessionKey) (x : Text) (m : Map Text Watches)
    → in_set j (lookup x (forget_key key m))
      ≡ (if test (key_discrete key j) then false else in_set j (lookup x m))
unfolding forget_key in_set lookup
in_set-forget_key key j x [] = ground arith
in_set-forget_key key j x ((c, v) ∷ m) =
    ground (arith, in_set-forget_key key j x m, in_set-erase key j (some v))

pub set-in_set :
    {A : Type 0} ⦃e : Eq A⦄ (x : A) (o : Option (Map A Included))
    → in_set x o ≡ in_set x (some (or_none o))
unfolding in_set lookup
set-in_set x none = refl
set-in_set x (some m) = refl

insert-ne-nil : {A : Type 0} ⦃e : Eq A⦄ (x : A) (m : Map A Included) → insert x included m ≢ []
unfolding insert
insert-ne-nil x [] h = cc
insert-ne-nil x ((y, u) ∷ m) h = ground arith

in_set-join :
    {K A : Type 0} ⦃k : Eq K⦄ ⦃a : Eq A⦄ (i j : K) (x y : A) (m : Map K (Map A Included))
    → in_set y (lookup j (insert i (insert x included (or_none (lookup i m))) m)) ≡ (
        if test (k.dec_eq i j)
        then (if test (a.dec_eq x y) then true else in_set y (lookup j m))
        else in_set y (lookup j m))
in_set-join i j x y m = ground (
  arith,
  lookup-insert i j (insert x included (or_none (lookup i m))) m,
  in_set-insert x y (lookup i m),
)

pub join_stream-Inv :
    (s : Streams) (client : Text) (key : WatchedSessionKey)
    → WatchInv s
    → WatchInv (join_stream s client key)
unfolding join_stream
join_stream-Inv s client key v = record {
  agree = λ c k. ground (
    arith,
    v.agree c k,
    in_set-join key k client c s.streamer_sessions,
    in_set-join client c key k s.streamer_client_sessions,
  );
  watched = λ k w at. ground (
    arith,
    v.watched k w,
    lookup-insert key k (insert client included (or_none (lookup key s.streamer_sessions)))
        s.streamer_sessions,
    insert-ne-nil client (or_none (lookup key s.streamer_sessions)),
  );
}

pub unwatch_target-Inv :
    (s : Streams) (client : Text) (o : Option WatchedSessionKey)
    → WatchInv s
    → WatchInv (unwatch_target s client o)
unfolding leave_client
unwatch_target-Inv s client none v = v
unwatch_target-Inv s client (some key) v = record {
  agree = λ c k. ground (
    arith,
    v.agree c k,
    in_set-leave_stream client c key k s.streamer_sessions,
    in_set-put client c k (erase key (or_none (lookup client s.streamer_client_sessions)))
        s.streamer_client_sessions,
    in_set-erase key k (lookup client s.streamer_client_sessions),
  );
  watched = λ k w at. leave-watched key k w at;
}
  where
    leave-watched :
        (key k : WatchedSessionKey) (w : Clients)
        → lookup k (leave_stream client key s.streamer_sessions) ≡ some w
        → w ≢ []
    leave-watched key k w at =
        leave_stream-watched client key k w s.streamer_sessions (v.watched k w) at
