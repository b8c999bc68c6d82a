-- ===== src/Images/Oldest.antt =====
-- evictOldestLocked of internal/services/imagestorage/storage.go: which image goes.
use cdev.Base.{
  is_empty, ℕ, ◌≤◌, ◌<◌, ◌≡◌, ◌≢◌, ◌⊎◌, inl, inr, refl, ◌||◌, false, [], ◌∷◌, Option, none, some,
  arith, Bool-cases, ltb,
}
use cdev.Base.Map.{Map, lookup, Distinct, Each, Each-mono, Each-lookup}
use cdev.Base.Text.{Text, text_eq}
use cdev.Images.{StoredImage, Storage, remove, oldest_from, evict_oldest, remove_found}
use cdev.Images.Invariant.{ImagesInv}
use cdev.Images.Cleaned.{IsKept}

-- No image of the map is older than a time.
abbrev pub NoneBefore : ℕ → Map Text StoredImage → Type 0
NoneBefore time m = Each (λ _ img. time ≤ img.created_at) m

abbrev Named : Map Text StoredImage → Type 0
Named m = Each (λ id _. is_empty id ≡ false) m

-- The id is that of an image that no other is older than.
abbrev pub IsOldest : Map Text StoredImage → Text → StoredImage → Type 0
IsOldest m id img = (lookup id m ≡ some img) × NoneBefore img.created_at m

NoneBefore-mono : (a b : ℕ) (m : Map Text StoredImage) → a ≤ b → NoneBefore b m → NoneBefore a m
NoneBefore-mono a b m h x = Each-mono _ _ m (λ k v g. omega arith) x

deeper :
    (i r : Text) (x img : StoredImage) (m : Map Text StoredImage)
    → lookup i m ≡ none
    → lookup r m ≡ some img
    → lookup r ((i, x) ∷ m) ≡ some img
unfolding lookup
deeper i r x img m h g = ground arith

first : (i : Text) (x : StoredImage) (m : Map Text StoredImage) → lookup i ((i, x) ∷ m) ≡ some x
unfolding lookup
first i x m = ground arith

evict_oldest-empty : (s : Storage) → s.images ≡ [] → evict_oldest s ≡ s
unfolding evict_oldest
evict_oldest-empty s e = rw e refl

-- What the loop finds after some start.
Outcome : Text → ℕ → Map Text StoredImage → Type 0
Outcome oid time m =
    ((oldest_from oid time m ≡ oid) × NoneBefore time m)
    ⊎ ((img : StoredImage) × IsOldest m (oldest_from oid time m) img × (img.created_at < time))

oldest_from-Outcome :
    (oid : Text) (time : ℕ) (m : Map Text StoredImage)
    → is_empty oid ≡ false
    → Named m
    → Distinct m
    → Outcome oid time m
unfolding Outcome
oldest_from-Outcome oid time [] e n d = inl (refl, tt)
oldest_from-Outcome oid time ((i, x) ∷ m) e n d =
    elim (Bool-cases (is_empty oid || ltb x.created_at time)) [
      | inl older ↦
          let lt : x.created_at < time = ground arith in
          elim (oldest_from-Outcome i x.created_at m n.0 n.1 d.1) [
            | inl (same, none_before) ↦
                inr (x, rw (older, same) (first i x m, (omega arith, none_before)), lt)
            | inr (img, (at, none_before), before) ↦
                inr (
                  img,
                  rw older (deeper i _ x img m d.0 at, (omega arith, none_before)),
                  omega arith,
                )
          ]
      | inr newer ↦
          let ge : time ≤ x.created_at = ground arith in
          elim (oldest_from-Outcome oid time m e n.1 d.1) [
            | inl (same, none_before) ↦ inl (rw newer same, (ge, none_before))
            | inr (img, (at, none_before), before) ↦
                inr (img, rw newer (deeper i _ x img m d.0 at, (omega arith, none_before)), before)
          ]
    ]

found-remove :
    (s : Storage) (id : Text) (o : Option StoredImage) (img : StoredImage)
    → o ≡ some img
    → remove_found s id o ≡ remove s id img
found-remove s id none img h = absurd (cc)
found-remove s id (some x) img h = ground arith

evicted :
    (s : Storage) (m : Map Text StoredImage)
    → s.images ≡ m
    → m ≢ []
    → Named m
    → Distinct m
    → (id : Text) × (img : StoredImage) × IsOldest m id img
      × (is_empty id ≡ false)
      × (oldest_from [] 0 m ≡ id)
unfolding Outcome
evicted s [] e ne n d = absurd (ne refl)
evicted s ((i, x) ∷ m) e ne n d = elim (oldest_from-Outcome i x.created_at m n.0 n.1 d.1) [
  | inl (same, none_before) ↦ (i, x, (first i x m, (omega arith, none_before)), n.0, same)
  | inr (img, (at, none_before), before) ↦ (
    oldest_from i x.created_at m,
    img,
    (deeper i _ x img m d.0 at, (omega arith, none_before)),
    Each-lookup (λ k _. is_empty k ≡ false) _ img m n.1 at,
    refl,
  )
]

-- Making room in a storage that has an image, in any order of the map: exactly one image is
-- removed, and no image of the storage was created before it.
pub evict_oldest-IsOldest :
    (drift : ℕ) (s : Storage)
    → ImagesInv drift s
    → s.images ≢ []
    → (id : Text) × (img : StoredImage) × IsOldest s.images id img
      × (evict_oldest s ≡ remove s id img)
unfolding evict_oldest
evict_oldest-IsOldest drift s v ne =
    let (id, img, oldest, some_id, is) = evicted s s.images refl ne v.named v.images in
    (id, img, oldest, rw (is, some_id) (found-remove s id _ img oldest.0))

evict_oldest-cases :
    (drift : ℕ) (s : Storage)
    → ImagesInv drift s
    → (evict_oldest s ≡ s)
      ⊎ ((id : Text) × (img : StoredImage) × (lookup id s.images ≡ some img)
          × (evict_oldest s ≡ remove s id img))
evict_oldest-cases drift s v = on s.images refl
  where
    on :
        (m : Map Text StoredImage)
        → s.images ≡ m
        → (evict_oldest s ≡ s)
          ⊎ ((id : Text) × (img : StoredImage) × (lookup id s.images ≡ some img)
              × (evict_oldest s ≡ remove s id img))
    on [] e = inl (evict_oldest-empty s e)
    on (x ∷ m) e =
        let (id, img, oldest, is) = evict_oldest-IsOldest drift s v (λ q. cc) in
        inr (id, img, oldest.0, is)

pub evict_oldest-keeps :
    (drift : ℕ) (P : Storage → Type 0) (s : Storage)
    → IsKept P
    → ImagesInv drift s
    → P s
    → P (evict_oldest s)
evict_oldest-keeps drift P s k v p = elim (evict_oldest-cases drift s v) [
  | inl same ↦ rw same p
  | inr (id, img, at, is) ↦ rw is (k s id img at p)
]
