-- ===== src/Watcher/Debounce/Merge.antt =====
-- What the debouncer reports of each path (debounce.go).
use cdev.Base.{
  Option-cases, inl, inr, String, ℕ, ◌≡◌, refl, ap, ◌∙◌, Bool, true, false, if◌then◌else◌, List, [],
  ◌∷◌, Option, none, some, arith, ite, string_eq, string_discrete,
}
use cdev.Base.Map.{lookup, insert, lookup-insert, lookup-erase}
use cdev.Watcher.Debounce.{
  FileChangeType, created, deleted, modified, renamed, DebouncedEvent, Debouncer, new_debouncer,
  merge_change_types, merged, add, fire,
}

-- A call of Add, with the name of its timer, or a timer's function that fires a path.
pub data Op : Type 0 where
  adds : String → FileChangeType → ℕ → Op
  fires : String → Op

abbrev report :
    String → Option (String × FileChangeType) → List FileChangeType → List FileChangeType
report p none rest = rest
report p (some (q, c)) rest = ite (string_discrete q p) (c ∷ rest) rest

-- The change types that the callback gets for a path.
abbrev pub reported : String → Debouncer → List Op → List FileChangeType
reported p d [] = []
reported p d (adds q c t ∷ ops) = reported p (add d q c t) ops
reported p d (fires q ∷ ops) = report p (fire d q).1 (reported p (fire d q).0 ops)

abbrev is_deleted : FileChangeType → Bool
is_deleted deleted = true
is_deleted _ = false

abbrev is_created : FileChangeType → Bool
is_created created = true
is_created _ = false

-- A deletion counts more than what was before, a creation more than what comes after it but a
-- deletion, and otherwise the newer change counts.
abbrev pub joined : Option FileChangeType → FileChangeType → FileChangeType
joined none c = c
joined (some b) c = if is_deleted c then deleted else if is_created b then created else c

abbrev emit : Option FileChangeType → List FileChangeType → List FileChangeType
emit none rest = rest
emit (some c) rest = c ∷ rest

-- One path by itself: changes are joined until the path fires, and then reported as one.
abbrev pub coalesced : String → Option FileChangeType → List Op → List FileChangeType
coalesced p acc [] = []
coalesced p acc (adds q c t ∷ ops) =
    coalesced p (ite (string_discrete q p) (some (joined acc c)) acc) ops
coalesced p acc (fires q ∷ ops) =
    ite (string_discrete q p) (emit acc (coalesced p none ops)) (coalesced p acc ops)

abbrev type_of : Option DebouncedEvent → Option FileChangeType
type_of none = none
type_of (some e) = some e.change_type

-- Each pending event stands under its own path, and the debouncer is not stopped.
record Running (d : Debouncer) : Type 0 where
  going : d.stopped ≡ false
  own : (q : String) (e : DebouncedEvent) → lookup q d.pending ≡ some e → e.path ≡ q

-- The event that Add leaves for its path.
abbrev event_for : Debouncer → String → FileChangeType → ℕ → DebouncedEvent
event_for d q c t = record { path = q; change_type = merged (lookup q d.pending) c; timer = t }

add-pending :
    (d : Debouncer) (q : String) (c : FileChangeType) (t : ℕ)
    → d.stopped ≡ false
    → (add d q c t).pending ≡ insert q (event_for d q c t) d.pending
unfolding add
add-pending d q c t h = ground (arith, h)

add-stopped :
    (d : Debouncer) (q : String) (c : FileChangeType) (t : ℕ) → (add d q c t).stopped ≡ d.stopped
unfolding add
add-stopped d q c t = ground arith

merge_joined : (b c : FileChangeType) → merge_change_types b c ≡ joined (some b) c
merge_joined b created = ground arith
merge_joined b modified = ground arith
merge_joined b deleted = ground arith
merge_joined b renamed = ground arith

merged-type : (o : Option DebouncedEvent) (c : FileChangeType) → merged o c ≡ joined (type_of o) c
merged-type none c = refl
merged-type (some e) c = merge_joined e.change_type c

add-Running :
    (d : Debouncer) (q : String) (c : FileChangeType) (t : ℕ) → Running d → Running (add d q c t)
add-Running d q c t r = record {
  going = add-stopped d q c t ∙ r.going;
  own = λ p e at. ground (
    arith,
    at,
    add-pending d q c t r.going,
    lookup-insert q p (event_for d q c t) d.pending,
    r.own p e,
  );
}

add-type :
    (d : Debouncer) (p q : String) (c : FileChangeType) (t : ℕ)
    → Running d
    → type_of (lookup p (add d q c t).pending)
      ≡ ite
          (string_discrete q p)
          (some (joined (type_of (lookup p d.pending)) c))
          (type_of (lookup p d.pending))
add-type d p q c t r = rw (add-pending d q c t r.going) (
    rw (lookup-insert q p (event_for d q c t) d.pending)
      (ground (arith, merged-type (lookup q d.pending) c)))

fire-Running : (d : Debouncer) (q : String) → Running d → Running (fire d q).0
unfolding fire
fire-Running d q r = record {
  going = r.going;
  own = λ p e at. r.own p e (ground (arith, at, lookup-erase q p d.pending));
}

report-own :
    (p q : String) (d : Debouncer) (rest : List FileChangeType)
    → Running d
    → report p (fire d q).1 rest
      ≡ ite (string_discrete q p) (emit (type_of (lookup p d.pending)) rest) rest
unfolding fire
report-own p q d rest r = elim (Option-cases (lookup q d.pending)) [
  | inl gone ↦ ground (arith, gone)
  | inr (e, there) ↦ ground (arith, there, r.going, r.own q e there)
]

fire-type :
    (d : Debouncer) (p q : String)
    → type_of (lookup p (fire d q).0.pending)
      ≡ ite (string_discrete q p) none (type_of (lookup p d.pending))
unfolding fire
fire-type d p q = ground (arith, lookup-erase q p d.pending)

decided :
    (p q : String) (w : Dec (q ≡ p)) (acc : Option FileChangeType) (rest : List FileChangeType)
    (ops : List Op)
    → rest ≡ coalesced p (ite w none acc) ops
    → ite w (emit acc rest) rest ≡ ite w (emit acc (coalesced p none ops)) (coalesced p acc ops)
decided p q (yes is) acc rest ops h = ap (emit acc) h
decided p q (no other) acc rest ops h = h

reported-coalesced :
    (p : String) (d : Debouncer) (ops : List Op)
    → Running d
    → reported p d ops ≡ coalesced p (type_of (lookup p d.pending)) ops
reported-coalesced p d [] r = refl
reported-coalesced p d (adds q c t ∷ ops) r =
    reported-coalesced p (add d q c t) ops (add-Running d q c t r)
    ∙ ap (λ o. coalesced p o ops) (add-type d p q c t r)
reported-coalesced p d (fires q ∷ ops) r =
    let rest = reported-coalesced p (fire d q).0 ops (fire-Running d q r) in
    report-own p q d (reported p (fire d q).0 ops) r
    ∙ decided p q (string_discrete q p) (type_of (lookup p d.pending)) _ ops
        (rest ∙ ap (λ o. coalesced p o ops) (fire-type d p q))

-- Until it is stopped, the debouncer treats each path by itself, however the changes and the
-- timers of other paths come between: the changes of a path since its last report are joined, and
-- one report of the joined change is made when the path fires. A deletion counts more than what was
-- before it, a creation more than what comes after it but a deletion, and otherwise the newer change
-- counts.
pub reported_new :
    (p : String) (ops : List Op) → reported p new_debouncer ops ≡ coalesced p none ops
unfolding new_debouncer lookup
reported_new p ops =
    reported-coalesced p new_debouncer ops (record { going = refl; own = λ q e h. absurd (cc) })
