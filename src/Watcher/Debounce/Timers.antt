-- ===== src/Watcher/Debounce/Timers.antt =====
-- The timers of the pending changes, and the steps of the debouncer (debounce.go).
use cdev.Base.{
  String, ℕ, ◌≡◌, ◌≢◌, ◌⊎◌, refl, sym, Bool, true, false, [], ◌∷◌, Option, none, some, arith,
  if◌then◌else◌, string_eq, nat_eq, string_discrete,
}
use cdev.Base.Map.{Map, lookup, insert, erase, lookup-insert, lookup-erase}
use cdev.Watcher.Debounce.{
  FileChangeType, DebouncedEvent, Debouncer, new_debouncer, stop_timer, stop_timers, add, elapse,
  fire, stop,
}

-- The timer of each pending change is armed for its path, or has gone off for it; no timer is both;
-- a pending change stands under its own path, and a debouncer that is stopped has none.
pub record TimersInv (d : Debouncer) : Type 0 where
  pub waits :
      (p : String) (e : DebouncedEvent)
      → lookup p d.pending ≡ some e
      → (e.path ≡ p) × ((lookup e.timer d.armed ≡ some p) ⊎ (lookup e.timer d.gone_off ≡ some p))
  pub going : (p : String) (e : DebouncedEvent) → lookup p d.pending ≡ some e → d.stopped ≡ false
  pub once : (t : ℕ) (p : String) → lookup t d.gone_off ≡ some p → lookup t d.armed ≡ none

abbrev pub IsFresh : Debouncer → ℕ → Type 0
IsFresh d t = (lookup t d.armed ≡ none) × (lookup t d.gone_off ≡ none)

new-TimersInv : TimersInv new_debouncer
unfolding new_debouncer lookup
new-TimersInv = record {
  waits = λ p e h. absurd (cc);
  going = λ p e h. refl;
  once = λ t p h. absurd (cc);
}

stop_timers-none :
    (t : ℕ) (m : Map String DebouncedEvent) (armed : Map ℕ String)
    → lookup t armed ≡ none
    → lookup t (stop_timers m armed) ≡ none
unfolding stop_timers
stop_timers-none t [] armed h = h
stop_timers-none t ((path, event) ∷ m) armed h =
    stop_timers-none t m (erase event.timer armed)
      (ground (arith, h, lookup-erase event.timer t armed))

stop-TimersInv : (d : Debouncer) → TimersInv d → TimersInv (stop d)
unfolding stop lookup
stop-TimersInv d v = record {
  waits = λ p e h. absurd (cc);
  going = λ p e h. absurd (cc);
  once = λ t p h. stop_timers-none t d.pending d.armed (v.once t p h);
}

fire-TimersInv : (d : Debouncer) (path : String) → TimersInv d → TimersInv (fire d path).0
unfolding fire
fire-TimersInv d path v = record {
  waits = λ p e h. v.waits p e (ground (arith, lookup-erase path p d.pending));
  going = λ p e h. v.going p e (ground (arith, lookup-erase path p d.pending));
  once = v.once;
}

elapse-TimersInv :
    (d : Debouncer) (t : ℕ) (o : Option String)
    → lookup t d.armed ≡ o
    → TimersInv d
    → TimersInv (elapse d t o)
elapse-TimersInv d t none h v = v
elapse-TimersInv d t (some path) h v = record {
  waits = λ p e at. ground (
    arith,
    v.waits p e at,
    v.once e.timer p,
    h,
    lookup-erase t e.timer d.armed,
    lookup-insert t e.timer path d.gone_off,
  );
  going = v.going;
  once = λ u p at.
      ground (arith, v.once u p, lookup-insert t u path d.gone_off, lookup-erase t u d.armed);
}

-- A pending change of another path keeps its timer when one is replaced.
others-wait :
    (d : Debouncer) (path p : String) (e x : DebouncedEvent)
    → TimersInv d
    → p ≢ path
    → lookup p d.pending ≡ some e
    → lookup path d.pending ≡ some x
    → (lookup e.timer (erase x.timer d.armed) ≡ some p) ⊎ (lookup e.timer d.gone_off ≡ some p)
others-wait d path p e x v other at there = ground (
  arith,
  v.waits p e at,
  v.waits path x there,
  v.once x.timer path,
  lookup-erase x.timer e.timer d.armed,
)

replace-TimersInv :
    (d : Debouncer) (path : String) (e : DebouncedEvent) (o : Option DebouncedEvent)
    → lookup path d.pending ≡ o
    → e.path ≡ path
    → IsFresh d e.timer
    → d.stopped ≡ false
    → TimersInv d
    → TimersInv (record d {
      pending = insert path e d.pending;
      armed = insert e.timer path (stop_timer d o);
    })
replace-TimersInv d path e none h same f on v = record {
  waits = λ p x at. ground (
    arith,
    v.waits p x,
    same,
    lookup-insert path p e d.pending,
    lookup-insert e.timer x.timer path d.armed,
    at,
  );
  going = λ p x at. on;
  once = λ t p at. ground (arith, v.once t p at, at, lookup-insert e.timer t path d.armed);
}
replace-TimersInv d path e (some old) h same f on v = record {
  waits = λ p x at. elim (string_discrete path p) [
    | yes own ↦
        (let is : x ≡ e = ground (arith, at, own, lookup-insert path p e d.pending) in
          ground
            (arith, is, same, own, lookup-insert e.timer x.timer path (erase old.timer d.armed)))
    | no other ↦
        (let there : lookup p d.pending ≡ some x =
            ground (arith, at, other, lookup-insert path p e d.pending) in
          ground (
            arith,
            v.waits p x there,
            f,
            others-wait d path p x old v (λ q. other (sym q)) there h,
            lookup-insert e.timer x.timer path (erase old.timer d.armed),
          ))
  ];
  going = λ p x at. on;
  once = λ t p at. ground (
    arith,
    v.once t p at,
    at,
    lookup-insert e.timer t path (erase old.timer d.armed),
    lookup-erase old.timer t d.armed,
  );
}

choose-TimersInv :
    (b : Bool) (x y : Debouncer)
    → TimersInv x
    → (b ≡ false → TimersInv y)
    → TimersInv (if b then x else y)
choose-TimersInv true x y v w = v
choose-TimersInv false x y v w = w refl

add-TimersInv :
    (d : Debouncer) (path : String) (c : FileChangeType) (t : ℕ)
    → IsFresh d t
    → TimersInv d
    → TimersInv (add d path c t)
unfolding add
add-TimersInv d path c t f v =
    choose-TimersInv d.stopped d _ v
      (λ on. replace-TimersInv d path _ (lookup path d.pending) refl refl f on v)

-- The function of a timer that went off runs once.
abbrev pub finished : Debouncer → ℕ → String → Debouncer
finished d t path = record (fire d path).0 { gone_off = erase t (fire d path).0.gone_off }

-- A call of Add, a timer, or the function of one that went off, in any order, and what the callback
-- is called with.
pub data Step : Debouncer → Option (String × FileChangeType) → Debouncer → Type 0 where
  adds :
      {d : Debouncer} (path : String) (c : FileChangeType) (t : ℕ)
      → IsFresh d t
      → Step d none (add d path c t)
  elapses : {d : Debouncer} (t : ℕ) → Step d none (elapse d t (lookup t d.armed))
  runs :
      {d : Debouncer} (t : ℕ) (path : String)
      → lookup t d.gone_off ≡ some path
      → Step d (fire d path).1 (finished d t path)

-- The states that steps and calls of Stop lead to.
pub data Reachable : Debouncer → Type 0 where
  started : Reachable new_debouncer
  steps :
      {d d' : Debouncer} {called : Option (String × FileChangeType)}
      → Reachable d
      → Step d called d'
      → Reachable d'
  stops : {d : Debouncer} → Reachable d → Reachable (stop d)

finished-TimersInv :
    (d : Debouncer) (t : ℕ) (path : String)
    → lookup t d.gone_off ≡ some path
    → TimersInv d
    → TimersInv (finished d t path)
unfolding fire
finished-TimersInv d t path off v = record {
  waits = λ p e at. ground (
    arith,
    at,
    off,
    lookup-erase path p d.pending,
    v.waits p e,
    v.once t path off,
    lookup-erase t e.timer d.gone_off,
  );
  going = λ p e at. v.going p e (ground (arith, at, lookup-erase path p d.pending));
  once = λ u p at. ground (arith, at, v.once u p, lookup-erase t u d.gone_off);
}

pub Step-TimersInv :
    {d d' : Debouncer} {called : Option (String × FileChangeType)}
    → Step d called d'
    → TimersInv d
    → TimersInv d'
Step-TimersInv (adds path c t f) v = add-TimersInv _ path c t f v
Step-TimersInv (elapses {d} t) v = elapse-TimersInv d t (lookup t d.armed) refl v
Step-TimersInv (runs t path off) v = finished-TimersInv _ t path off v

pub Reachable-TimersInv : {d : Debouncer} → Reachable d → TimersInv d
Reachable-TimersInv started = new-TimersInv
Reachable-TimersInv (steps r s) = Step-TimersInv s (Reachable-TimersInv r)
Reachable-TimersInv (stops r) = stop-TimersInv _ (Reachable-TimersInv r)
