-- ===== src/Base/Map.antt =====
-- Go's `map[K]V` as an association list. A Go map has no order; the order of the list is the one
-- that a `range` loop happens to take, and theorems hold for every list, so for every order.
use mathlib.Core.Bool.{Bool}
use mathlib.Core.Path.{◌≡◌, refl}
use mathlib.Core.Logic.{ite, if_pos, if_neg, ◌≢◌}
use mathlib.Core.List.{List, [], ◌∷◌}
use mathlib.Core.Option.{Option, none, some}
use Prim.Native.Nat.{◌+◌, ◌≤◌, ◌<◌}
use native.Mathlib.Omega.{arith}
use cdev.Base.Tests.{Eq, if◌then◌else◌}
use cdev.Base.Lists.{length, All}

abbrev pub Map {ℓ} : Type ℓ → Type ℓ → Type ℓ
Map K V = List (K × V)

module _ {ℓ} {K V : Type ℓ} ⦃e : Eq K⦄ where
  -- m[k], with none for a missing key
  unfoldable pub lookup : K → Map K V → Option V
  lookup k [] = none
  lookup k ((j, v) ∷ m) = ite (e.dec_eq j k) (some v) (lookup k m)

  -- m[k] = v
  unfoldable pub insert : K → V → Map K V → Map K V
  insert k v [] = (k, v) ∷ []
  insert k v ((j, w) ∷ m) = ite (e.dec_eq j k) ((k, v) ∷ m) ((j, w) ∷ insert k v m)

  -- delete(m, k)
  unfoldable pub erase : K → Map K V → Map K V
  erase k [] = []
  erase k ((j, w) ∷ m) = ite (e.dec_eq j k) (erase k m) ((j, w) ∷ erase k m)

  -- A loop over the map that deletes the entries which fail a test.
  unfoldable pub retain : (K → V → Bool) → Map K V → Map K V
  retain p [] = []
  retain p ((j, w) ∷ m) = if p j w then (j, w) ∷ retain p m else retain p m

  -- No key stands twice.
  abbrev pub Distinct : Map K V → Type ℓ
  Distinct [] = Unit
  Distinct ((k, v) ∷ m) = (lookup k m ≡ none) × Distinct m

  pub lookup-insert :
      (k j : K) (v : V) (m : Map K V)
      → lookup j (insert k v m) ≡ ite (e.dec_eq k j) (some v) (lookup j m)
  unfolding lookup insert
  lookup-insert k j v [] = refl
  lookup-insert k j v ((i, w) ∷ m) = ground (arith, lookup-insert k j v m)

  pub lookup-erase :
      (k j : K) (m : Map K V) → lookup j (erase k m) ≡ ite (e.dec_eq k j) none (lookup j m)
  unfolding lookup erase
  lookup-erase k j [] = ground arith
  lookup-erase k j ((i, w) ∷ m) = ground (arith, lookup-erase k j m)

  pub lookup-insert_self : (k : K) (v : V) (m : Map K V) → lookup k (insert k v m) ≡ some v
  lookup-insert_self k v m = ground (arith, lookup-insert k k v m)

  pub lookup-erase_self : (k : K) (m : Map K V) → lookup k (erase k m) ≡ none
  lookup-erase_self k m = ground (arith, lookup-erase k k m)

  pub insert-Distinct : (k : K) (v : V) (m : Map K V) → Distinct m → Distinct (insert k v m)
  unfolding lookup insert
  insert-Distinct k v [] d = (refl, tt)
  insert-Distinct k v ((i, w) ∷ m) d =
      ground (arith, lookup-insert k i v m, insert-Distinct k v m d.1)

  pub erase-Distinct : (k : K) (m : Map K V) → Distinct m → Distinct (erase k m)
  unfolding lookup erase
  erase-Distinct k [] d = tt
  erase-Distinct k ((i, w) ∷ m) d = ground (arith, lookup-erase k i m, erase-Distinct k m d.1)

  lookup-retain-none :
      (p : K → V → Bool) (k : K) (m : Map K V) → lookup k m ≡ none → lookup k (retain p m) ≡ none
  unfolding lookup retain
  lookup-retain-none p k [] h = refl
  lookup-retain-none p k ((i, w) ∷ m) h = ground (arith, lookup-retain-none p k m)

  pub retain-Distinct : (p : K → V → Bool) (m : Map K V) → Distinct m → Distinct (retain p m)
  unfolding lookup retain
  retain-Distinct p [] d = tt
  retain-Distinct p ((i, w) ∷ m) d =
      ground (arith, lookup-retain-none p i m d.0, retain-Distinct p m d.1)

  -- What a deleting loop leaves of a key.
  abbrev pub kept : (K → V → Bool) → K → Option V → Option V
  kept p k none = none
  kept p k (some v) = if p k v then some v else none

  pub lookup-retain :
      (p : K → V → Bool) (k : K) (m : Map K V)
      → Distinct m
      → lookup k (retain p m) ≡ kept p k (lookup k m)
  unfolding lookup retain
  lookup-retain p k [] d = refl
  lookup-retain p k ((i, w) ∷ m) d =
      ground (arith, lookup-retain p k m d.1, lookup-retain-none p k m)

  pub length-insert_new :
      (k : K) (v : V) (m : Map K V) → lookup k m ≡ none → length (insert k v m) ≡ length m + 1
  unfolding lookup insert
  length-insert_new k v [] h = omega arith
  length-insert_new k v ((i, w) ∷ m) h = ground (arith, length-insert_new k v m)

  pub length-insert_old :
      (k : K) (v w : V) (m : Map K V) → lookup k m ≡ some w → length (insert k v m) ≡ length m
  unfolding lookup insert
  length-insert_old k v w [] h = ground arith
  length-insert_old k v w ((i, u) ∷ m) h = ground (arith, length-insert_old k v w m)

  pub length-erase-le : (k : K) (m : Map K V) → length (erase k m) ≤ length m
  unfolding erase
  length-erase-le k [] = omega arith
  length-erase-le k ((i, u) ∷ m) = ground (arith, length-erase-le k m)

  pub length-erase-lt :
      (k : K) (w : V) (m : Map K V) → lookup k m ≡ some w → length (erase k m) < length m
  unfolding lookup erase
  length-erase-lt k w [] h = ground arith
  length-erase-lt k w ((i, u) ∷ m) h = ground (arith, length-erase-lt k w m, length-erase-le k m)

  pub erase_fresh : (k : K) (m : Map K V) → lookup k m ≡ none → erase k m ≡ m
  unfolding lookup erase
  erase_fresh k [] h = refl
  erase_fresh k ((i, u) ∷ m) h = ground (arith, erase_fresh k m)

  pub length-erase-Distinct :
      (k : K) (w : V) (m : Map K V)
      → Distinct m
      → lookup k m ≡ some w
      → length (erase k m) + 1 ≡ length m
  unfolding lookup erase
  length-erase-Distinct k w [] d h = ground arith
  length-erase-Distinct k w ((i, u) ∷ m) d h =
      ground (arith, length-erase-Distinct k w m d.1, erase_fresh k m)

  pub length-retain-le : (p : K → V → Bool) (m : Map K V) → length (retain p m) ≤ length m
  unfolding retain
  length-retain-le p [] = omega arith
  length-retain-le p ((i, u) ∷ m) = ground (arith, length-retain-le p m)

  -- Every entry of the map has a property.
  abbrev pub Each : (K → V → Type ℓ) → Map K V → Type ℓ
  Each P = All (λ e. P e.0 e.1)

  module _ (P : K → V → Type ℓ) where
    pub Each-lookup : (k : K) (v : V) (m : Map K V) → Each P m → lookup k m ≡ some v → P k v
    unfolding lookup
    Each-lookup k v [] a h = ground arith
    Each-lookup k v ((i, u) ∷ m) a h = elim (e.dec_eq i k) [
      | yes same ↦ ground arith
      | no other ↦ Each-lookup k v m a.1 (ground arith)
    ]

    pub Each-insert : (k : K) (v : V) (m : Map K V) → P k v → Each P m → Each P (insert k v m)
    unfolding insert
    Each-insert k v [] h a = (h, tt)
    Each-insert k v ((i, u) ∷ m) h a = ground (arith, Each-insert k v m h a.1)

    pub Each-erase : (k : K) (m : Map K V) → Each P m → Each P (erase k m)
    unfolding erase
    Each-erase k [] a = tt
    Each-erase k ((i, u) ∷ m) a = ground (arith, Each-erase k m a.1)

    pub Each-retain : (p : K → V → Bool) (m : Map K V) → Each P m → Each P (retain p m)
    unfolding retain
    Each-retain p [] a = tt
    Each-retain p ((i, u) ∷ m) a = ground (arith, Each-retain p m a.1)

  module _ (P Q : K → V → Type ℓ) where
    pub Each-mono : (m : Map K V) → ((k : K) (v : V) → P k v → Q k v) → Each P m → Each Q m
    Each-mono [] h a = tt
    Each-mono ((i, u) ∷ m) h a = (h i u a.0, Each-mono m h a.1)

    -- What is left after a key is deleted has other keys.
    pub Each-erase_other :
        (k : K) (m : Map K V)
        → ((j : K) (v : V) → j ≢ k → P j v → Q j v)
        → Each P m
        → Each Q (erase k m)
    unfolding erase
    Each-erase_other k [] h a = tt
    Each-erase_other k ((i, u) ∷ m) h a = elim (e.dec_eq i k) [
      | yes p ↦ rw (if_pos _ p) (Each-erase_other k m h a.1)
      | no p ↦ rw (if_neg _ p) (h i u p a.0, Each-erase_other k m h a.1)
    ]
