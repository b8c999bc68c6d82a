-- ===== src/Watcher/Debounce/Reported.antt =====
-- Runs of the debouncer, with the calls of the callback (debounce.go).
use cdev.Base.{
  String, ℕ, ◌≡◌, ◌≢◌, ◌⊎◌, Bool, true, false, List, [], ◌∷◌, Option, Option-cases, none, some,
  is_some, Bool-cases, arith, inl, inr, ite, string_eq, nat_eq, string_discrete,
}
use cdev.Base.Map.{lookup, lookup-insert, lookup-erase}
use cdev.Watcher.Debounce.{FileChangeType, DebouncedEvent, Debouncer, merged, add, elapse, fire}
use cdev.Watcher.Debounce.Timers.{
  TimersInv, Step, adds, elapses, runs, Reachable, Step-TimersInv, Reachable-TimersInv,
}

abbrev pub with_call :
    Option (String × FileChangeType)
    → List (String × FileChangeType)
    → List (String × FileChangeType)
with_call none calls = calls
with_call (some c) calls = c ∷ calls

-- Steps one after another, with the calls of the callback in order.
pub data Run : Debouncer → List (String × FileChangeType) → Debouncer → Type 0 where
  done : {d : Debouncer} → Run d [] d
  next :
      {d d' d'' : Debouncer} {called : Option (String × FileChangeType)}
      {calls : List (String × FileChangeType)}
      → Step d called d'
      → Run d' calls d''
      → Run d (with_call called calls) d''

-- The callback was called for the path.
abbrev pub reports : String → List (String × FileChangeType) → Bool
reports p [] = false
reports p ((q, _) ∷ calls) = ite (string_discrete q p) true (reports p calls)

-- No timer of the path is armed, and none that went off waits.
abbrev pub IsThrough : String → Debouncer → Type 0
IsThrough p d = (t : ℕ) → (lookup t d.armed ≢ some p) × (lookup t d.gone_off ≢ some p)

reports-with_call :
    (p : String) (c : Option (String × FileChangeType)) (calls : List (String × FileChangeType))
    → reports p calls ≡ true
    → reports p (with_call c calls) ≡ true
reports-with_call p none calls h = h
reports-with_call p (some (q, x)) calls h = ground (arith, h)

abbrev pends : String → Debouncer → Bool
pends p d = is_some (lookup p d.pending)

add-pends :
    (d : Debouncer) (path : String) (c : FileChangeType) (t : ℕ) (p : String)
    → pends p d ≡ true
    → pends p (add d path c t) ≡ true
unfolding add
add-pends d path c t p h = elim (Bool-cases d.stopped) [
  | inl off ↦ ground (arith, h, off)
  | inr on ↦
      (let event : DebouncedEvent = record {
        path = path;
        change_type = merged (lookup path d.pending) c;
        timer = t;
      } in
        ground (arith, h, on, lookup-insert path p event d.pending))
]

elapse-pends :
    (d : Debouncer) (t : ℕ) (o : Option String) (p : String)
    → pends p d ≡ true
    → pends p (elapse d t o) ≡ true
elapse-pends d t none p h = h
elapse-pends d t (some path) p h = h

-- When a path fires, its change is reported, and every other stays pending.
fire-pends :
    (d : Debouncer) (path p : String)
    → TimersInv d
    → pends p d ≡ true
    → (pends p (fire d path).0 ≡ true) ⊎ (reports p (with_call (fire d path).1 []) ≡ true)
unfolding fire
fire-pends d path p v h = elim (Option-cases (lookup path d.pending)) [
  | inl gone ↦ inl (ground (arith, h, gone, lookup-erase path p d.pending))
  | inr (e, there) ↦
      ground
        (arith, h, there, v.going path e there, v.waits path e there, lookup-erase path p d.pending)
]

reports-first :
    (p : String) (c : Option (String × FileChangeType)) (calls : List (String × FileChangeType))
    → reports p (with_call c []) ≡ true
    → reports p (with_call c calls) ≡ true
reports-first p none calls h = absurd (cc)
reports-first p (some (q, x)) calls h = ground (arith, h)

Step-pends :
    {d d' : Debouncer} {called : Option (String × FileChangeType)} (p : String)
    → Step d called d'
    → TimersInv d
    → pends p d ≡ true
    → (pends p d' ≡ true) ⊎ (reports p (with_call called []) ≡ true)
Step-pends p (adds path c t f) v h = inl (add-pends _ path c t p h)
Step-pends p (elapses {d} t) v h = inl (elapse-pends d t (lookup t d.armed) p h)
Step-pends p (runs t path off) v h = fire-pends _ path p v h

-- A path that is through has nothing pending.
through-pends : (p : String) (d : Debouncer) → TimersInv d → IsThrough p d → pends p d ≡ true → ⊥
through-pends p d v through h = elim (Option-cases (lookup p d.pending)) [
  | inl gone ↦ ground (arith, h, gone)
  | inr (e, there) ↦ ground (arith, v.waits p e there, through e.timer)
]

Run-reports :
    {d d' : Debouncer} {calls : List (String × FileChangeType)} (p : String)
    → TimersInv d
    → Run d calls d'
    → pends p d ≡ true
    → IsThrough p d'
    → reports p calls ≡ true
Run-reports p v (done {d}) h through = absurd (through-pends p d v through h)
Run-reports p v (next {called} {calls} s rest) h through = elim (Step-pends p s v h) [
  | inl still ↦
      reports-with_call p called calls (Run-reports p (Step-TimersInv s v) rest still through)
  | inr reported_now ↦ reports-first p called calls reported_now
]

-- A change that is pending for a path in a state that the debouncer comes to is reported: in every
-- run of calls of Add, timers and their functions without Stop, at whose end no timer of the path is
-- armed or waits to run, the callback is called for the path.
pub pending-reported :
    {d d' : Debouncer} {calls : List (String × FileChangeType)} (p : String) (e : DebouncedEvent)
    → Reachable d
    → lookup p d.pending ≡ some e
    → Run d calls d'
    → IsThrough p d'
    → reports p calls ≡ true
pending-reported p e r there run through =
    Run-reports p (Reachable-TimersInv r) run (ground (arith, there)) through
