-- ===== src/Sessions/GitWatch.antt =====
-- The git watchers of the workspaces, with a count of subscribers each (StartGitWatcher and
-- StopGitWatcher of internal/session/manager.go).
use cdev.Base.{
  ℕ, ◌+◌, ◌-◌, ◌≡◌, ◌≢◌, ◌<◌, ◌∙◌, sym, ap, subst, refl, Bool, true, false, List, [], ◌∷◌, Option,
  none, some, ltb, if◌then◌else◌, is_some, Bool-cases, inl, inr, arith,
}
use cdev.Base.Map.{Map, lookup, insert, erase, lookup-insert, lookup-erase}
use cdev.Base.Text.{Text, text_eq, list_discrete}

-- A watcher that runs.
pub data Running : Type 0 where
  in_background : Running

pub record GitWatchers : Type 0 where
  pub git_watchers : Map Text Running
  pub git_watcher_counts : Map Text ℕ

-- What StartGitWatcher finds out about the workspace.
pub data Workspace : Type 0 where
  unknown_workspace no_git_repo git_repo : Workspace

abbrev or_zero : Option ℕ → ℕ
or_zero none = 0
or_zero (some n) = n

-- m.gitWatcherCounts[workspaceID]
abbrev pub count : GitWatchers → Text → ℕ
count w id = or_zero (lookup id w.git_watcher_counts)

abbrev pub set_count : GitWatchers → Text → ℕ → GitWatchers
set_count w id n = record w { git_watcher_counts = insert id n w.git_watcher_counts }

abbrev pub start_new : GitWatchers → Text → Workspace → GitWatchers × Bool
start_new w id unknown_workspace = (set_count w id (count w id), false)
start_new w id no_git_repo = (set_count w id (count w id), true)
start_new w id git_repo = (
  record (set_count w id (count w id + 1)) {
    git_watchers = insert id in_background w.git_watchers;
  },
  true,
)

-- StartGitWatcher; the Bool is false for an error, of an unknown workspace
unfoldable pub start_git_watcher : Bool → GitWatchers → Text → Workspace → GitWatchers × Bool
start_git_watcher enabled w id found =
    if enabled
    then (if is_some (lookup id w.git_watchers)
        then (set_count w id (count w id + 1), true)
        else start_new w id found)
    else (w, true)

abbrev pub one_less : GitWatchers → Text → GitWatchers
one_less w id = if ltb 0 (count w id) then set_count w id (count w id - 1) else w

-- The watcher ends with its last subscriber.
abbrev pub end_unused : GitWatchers → Text → GitWatchers
end_unused w id =
    if ltb 0 (count w id)
    then w
    else if is_some (lookup id w.git_watchers)
    then record {
      git_watchers = erase id w.git_watchers;
      git_watcher_counts = erase id w.git_watcher_counts;
    }
    else w

-- StopGitWatcher
unfoldable pub stop_git_watcher : GitWatchers → Text → GitWatchers
stop_git_watcher w id = end_unused (one_less w id) id

-- The loop of OnClientDisconnect over the workspaces of the client.
unfoldable pub stop_git_watchers : GitWatchers → List Text → GitWatchers
stop_git_watchers w [] = w
stop_git_watchers w (id ∷ ids) = stop_git_watchers (stop_git_watcher w id) ids

-- A watcher runs exactly for the workspaces with a subscriber in the count.
abbrev pub IsCounted : GitWatchers → Type 0
IsCounted w = (id : Text) → is_some (lookup id w.git_watchers) ≡ ltb 0 (count w id)

added-IsCounted :
    (w : GitWatchers) (id : Text)
    → is_some (lookup id w.git_watchers) ≡ true
    → IsCounted w
    → IsCounted (set_count w id (count w id + 1))
added-IsCounted w id there v j =
    ground (arith, v j, lookup-insert id j (count w id + 1) w.git_watcher_counts)

start_new-IsCounted :
    (w : GitWatchers) (id : Text) (found : Workspace)
    → IsCounted w
    → IsCounted (start_new w id found).0
start_new-IsCounted w id unknown_workspace v j =
    ground (arith, v j, lookup-insert id j (count w id) w.git_watcher_counts)
start_new-IsCounted w id no_git_repo v j =
    ground (arith, v j, lookup-insert id j (count w id) w.git_watcher_counts)
start_new-IsCounted w id git_repo v j = ground (
  arith,
  v j,
  lookup-insert id j (count w id + 1) w.git_watcher_counts,
  lookup-insert id j in_background w.git_watchers,
)

start_git_watcher-IsCounted :
    (enabled : Bool) (w : GitWatchers) (id : Text) (found : Workspace)
    → IsCounted w
    → IsCounted (start_git_watcher enabled w id found).0
unfolding start_git_watcher
start_git_watcher-IsCounted false w id found v = v
start_git_watcher-IsCounted true w id found v =
    elim (Bool-cases (is_some (lookup id w.git_watchers))) [
      | inl there ↦ rw there (added-IsCounted w id there v)
      | inr new ↦ rw new (start_new-IsCounted w id found v)
    ]

one_less-count : (w : GitWatchers) (id : Text) → count (one_less w id) id ≡ count w id - 1
one_less-count w id = ground (arith, lookup-insert id id (count w id - 1) w.git_watcher_counts)

one_less-other : (w : GitWatchers) (id j : Text) → id ≢ j → count (one_less w id) j ≡ count w j
one_less-other w id j ne = ground (arith, lookup-insert id j (count w id - 1) w.git_watcher_counts)

one_less-watchers : (w : GitWatchers) (id : Text) → (one_less w id).git_watchers ≡ w.git_watchers
one_less-watchers w id = elim (Bool-cases (ltb 0 (count w id))) [
  | inl more ↦ rw more refl
  | inr none_left ↦ rw none_left refl
]

-- Apart from the workspace itself, where a watcher may run without a subscriber.
NearlyCounted : Text → GitWatchers → Type 0
NearlyCounted id w =
    ((j : Text) → id ≢ j → is_some (lookup j w.git_watchers) ≡ ltb 0 (count w j))
    × (0 < count w id → is_some (lookup id w.git_watchers) ≡ true)

erased-IsCounted :
    (w : GitWatchers) (id : Text)
    → NearlyCounted id w
    → IsCounted (record {
      git_watchers = erase id w.git_watchers;
      git_watcher_counts = erase id w.git_watcher_counts;
    })
unfolding NearlyCounted
erased-IsCounted w id v j = elim (list_discrete id j) [
  | yes p ↦ ground (arith, lookup-erase id j w.git_watchers, lookup-erase id j w.git_watcher_counts)
  | no q ↦
      let same_j = v.0 j q in
      ground (arith, lookup-erase id j w.git_watchers, lookup-erase id j w.git_watcher_counts)
]

kept-IsCounted :
    (w : GitWatchers) (id : Text)
    → NearlyCounted id w
    → is_some (lookup id w.git_watchers) ≡ ltb 0 (count w id)
    → IsCounted w
unfolding NearlyCounted
kept-IsCounted w id v own j = elim (list_discrete id j) [
  | yes p ↦ subst (λ k. is_some (lookup k w.git_watchers) ≡ ltb 0 (count w k)) p own
  | no q ↦ v.0 j q
]

end_unused-IsCounted :
    (w : GitWatchers) (id : Text) → NearlyCounted id w → IsCounted (end_unused w id)
unfolding NearlyCounted
end_unused-IsCounted w id v = elim (Bool-cases (ltb 0 (count w id))) [
  | inl used ↦ rw used (kept-IsCounted w id v (v.1 (ground arith) ∙ sym used))
  | inr unused ↦ elim (Bool-cases (is_some (lookup id w.git_watchers))) [
    | inl there ↦ rw (unused, there) (erased-IsCounted w id v)
    | inr gone ↦ rw (unused, gone) (kept-IsCounted w id v (gone ∙ sym unused))
  ]
]

one_less-NearlyCounted :
    (w : GitWatchers) (id : Text) → IsCounted w → NearlyCounted id (one_less w id)
unfolding NearlyCounted
one_less-NearlyCounted w id v = (
  λ j ne.
      ap (λ (m : Map Text Running). is_some (lookup j m)) (one_less-watchers w id)
      ∙ v j
      ∙ ap (ltb 0) (sym (one_less-other w id j ne)),
  λ more.
      ap (λ (m : Map Text Running). is_some (lookup id m)) (one_less-watchers w id)
      ∙ v id
      ∙ (let n = one_less-count w id in ground arith),
)

stop_git_watcher-IsCounted :
    (w : GitWatchers) (id : Text) → IsCounted w → IsCounted (stop_git_watcher w id)
unfolding stop_git_watcher
stop_git_watcher-IsCounted w id v =
    end_unused-IsCounted (one_less w id) id (one_less-NearlyCounted w id v)

-- A subscriber that comes or goes, or a client that disconnects from its workspaces.
pub data Change : Type 0 where
  comes : Bool → Text → Workspace → Change
  goes : Text → Change
  disconnects_from : List Text → Change

abbrev pub change : GitWatchers → Change → GitWatchers
change w (comes enabled id found) = (start_git_watcher enabled w id found).0
change w (goes id) = stop_git_watcher w id
change w (disconnects_from ids) = stop_git_watchers w ids

stop_git_watchers-IsCounted :
    (w : GitWatchers) (ids : List Text) → IsCounted w → IsCounted (stop_git_watchers w ids)
unfolding stop_git_watchers
stop_git_watchers-IsCounted w [] v = v
stop_git_watchers-IsCounted w (id ∷ ids) v =
    stop_git_watchers-IsCounted (stop_git_watcher w id) ids (stop_git_watcher-IsCounted w id v)

-- Every change keeps it that a git watcher runs exactly for the workspaces with a subscriber in the
-- count.
pub change-IsCounted : (w : GitWatchers) (c : Change) → IsCounted w → IsCounted (change w c)
change-IsCounted w (comes enabled id found) v = start_git_watcher-IsCounted enabled w id found v
change-IsCounted w (goes id) v = stop_git_watcher-IsCounted w id v
change-IsCounted w (disconnects_from ids) v = stop_git_watchers-IsCounted w ids v
