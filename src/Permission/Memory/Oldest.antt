-- ===== src/Permission/Memory/Oldest.antt =====
-- The loop of StoreDecision that looks for the oldest decision (memory.go).
use cdev.Base.{
  ℕ, ◌≤◌, ◌<◌, ◌≡◌, ◌≢◌, ◌⊎◌, refl, ap, ◌∙◌, true, [], ◌∷◌, none, some, arith, inl, inr, Bool-cases,
  if◌then◌else◌, ltb, leb, length,
}
use cdev.Base.Map.{Map, lookup, erase, Distinct, Each, Each-lookup}
use cdev.Base.Text.{Text, text_eq}
use cdev.Permission.Types.{StoredDecision}
use cdev.Permission.Memory.{oldest_from, make_room, drop_pattern}

abbrev pub Named : Text → StoredDecision → Type 0
Named k _ = k ≢ []

-- The result is the start or an entry, and its time is not after the start nor any entry.
Oldest : Text → ℕ → Map Text StoredDecision → Text → Type 0
Oldest p t m r =
    (tr : ℕ) × (((r ≡ p) × (tr ≡ t))
      ⊎ ((d : StoredDecision) × (lookup r m ≡ some d) × (tr ≡ d.created_at)))
    × (tr ≤ t)
    × Each (λ _ d. tr ≤ d.created_at) m

Each-weaken :
    (a b : ℕ) (m : Map Text StoredDecision)
    → a ≤ b
    → Each (λ _ d. b ≤ d.created_at) m
    → Each (λ _ d. a ≤ d.created_at) m
Each-weaken a b [] h e = tt
Each-weaken a b ((k, d) ∷ m) h e = (omega arith, Each-weaken a b m h e.1)

Oldest-newer :
    (p : Text) (t : ℕ) (k : Text) (d : StoredDecision) (m : Map Text StoredDecision) (r : Text)
    → lookup k m ≡ none
    → d.created_at < t
    → Oldest k d.created_at m r
    → Oldest p t ((k, d) ∷ m) r
unfolding Oldest lookup
Oldest-newer p t k d m r fresh lt (tr, inl (at, e), low, all) =
    (tr, inr (d, ground (arith, at), e), omega arith, (low, all))
Oldest-newer p t k d m r fresh lt (tr, inr (x, at, e), low, all) =
    (tr, inr (x, ground (arith, at, fresh), e), omega arith, (low, all))

Oldest-older :
    (p : Text) (t : ℕ) (k : Text) (d : StoredDecision) (m : Map Text StoredDecision) (r : Text)
    → lookup k m ≡ none
    → t ≤ d.created_at
    → Oldest p t m r
    → Oldest p t ((k, d) ∷ m) r
unfolding Oldest lookup
Oldest-older p t k d m r fresh le (tr, inl h, low, all) = (tr, inl h, low, (omega arith, all))
Oldest-older p t k d m r fresh le (tr, inr (x, at, e), low, all) =
    (tr, inr (x, ground (arith, at, fresh), e), low, (omega arith, all))

oldest_from-Oldest :
    (p : Text) (t : ℕ) (m : Map Text StoredDecision)
    → p ≢ []
    → Each Named m
    → Distinct m
    → Oldest p t m (oldest_from p t m)
unfolding oldest_from Oldest
oldest_from-Oldest p t [] h n d = (t, inl (refl, refl), omega arith, tt)
oldest_from-Oldest [] t ((k, x) ∷ m) h n d = absurd (h refl)
oldest_from-Oldest (c ∷ p) t ((k, x) ∷ m) h n d = elim (Bool-cases (ltb x.created_at t)) [
  | inl lt ↦ rw lt (
      Oldest-newer (c ∷ p) t k x m _ d.0 (ground arith)
        (oldest_from-Oldest k x.created_at m n.0 n.1 d.1))
  | inr ge ↦
      rw ge (
        Oldest-older (c ∷ p) t k x m _ d.0 (ground arith)
          (oldest_from-Oldest (c ∷ p) t m h n.1 d.1))
]

le→leb : (a b : ℕ) → a ≤ b → leb a b ≡ true
le→leb a b h = ground arith

-- What a full session forgets: a decision that is stored, and none is older.
abbrev pub Evicted : Map Text StoredDecision → Text → Type 0
Evicted m k =
    (d : StoredDecision) × (lookup k m ≡ some d) × Each (λ _ x. d.created_at ≤ x.created_at) m

first-Evicted :
    (k : Text) (x : StoredDecision) (m : Map Text StoredDecision) (r : Text)
    → Distinct ((k, x) ∷ m)
    → Oldest k x.created_at m r
    → Evicted ((k, x) ∷ m) r
unfolding Oldest lookup
first-Evicted k x m r d (tr, inl (at, e), low, all) =
    (x, ground (arith, at), (omega arith, Each-weaken x.created_at tr m (omega arith) all))
first-Evicted k x m r d (tr, inr (y, at, e), low, all) =
    (y, ground (arith, at, d), (omega arith, Each-weaken y.created_at tr m (omega arith) all))

drop_pattern-named :
    (k : Text) (m : Map Text StoredDecision) → k ≢ [] → drop_pattern k m ≡ erase k m
drop_pattern-named [] m h = absurd (h refl)
drop_pattern-named (c ∷ k) m h = refl

-- A session with room keeps everything.
pub make_room-free : (cap : ℕ) (m : Map Text StoredDecision) → length m < cap → make_room cap m ≡ m
unfolding make_room
make_room-free cap m h = ground arith

-- A session at or over its limit, which is at least 1, forgets exactly one decision, and none it
-- holds is older. The patterns are distinct and not empty.
pub make_room-full :
    (cap : ℕ) (m : Map Text StoredDecision)
    → 1 ≤ cap
    → cap ≤ length m
    → Each Named m
    → Distinct m
    → (k : Text) × Evicted m k × (k ≢ []) × (make_room cap m ≡ erase k m)
unfolding make_room oldest_from
make_room-full cap [] pos full n d = absurd (omega arith)
make_room-full cap ((k, x) ∷ m) pos full n d =
    let r = oldest_from k x.created_at m in
    let oldest : Evicted ((k, x) ∷ m) r =
      first-Evicted k x m r d (oldest_from-Oldest k x.created_at m n.0 n.1 d.1) in
    let named : r ≢ [] = Each-lookup Named r oldest.0 ((k, x) ∷ m) n oldest.1 in
    (
      r,
      oldest,
      named,
      ap (λ b. if b then drop_pattern r ((k, x) ∷ m) else (k, x) ∷ m) (le→leb cap _ full)
          ∙ drop_pattern-named r ((k, x) ∷ m) named,
    )
