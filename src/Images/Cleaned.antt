-- ===== src/Images/Cleaned.antt =====
-- cleanupExpiredLocked of internal/services/imagestorage/storage.go: the loop that deletes.
use cdev.Base.{
  ℕ, ◌≤◌, ◌≡◌, ◌≢◌, refl, ◌∙◌, Bool, true, false, [], ◌∷◌, Option, none, some, arith, inl, inr,
  Bool-cases, length, if◌then◌else◌,
}
use cdev.Base.Map.{Map, lookup, erase, Distinct, Each, Each-mono, lookup-erase, length-erase-le}
use cdev.Base.Text.{Text, list_discrete, text_eq}
use cdev.Images.{StoredImage, Storage, remove, is_expired, clean_entries, cleanup_expired}
use cdev.Images.Invariant.{ImagesInv, remove-Inv}

-- The entries stand in the map.
abbrev In : Map Text StoredImage → Map Text StoredImage → Type 0
In m all = Each (λ k v. lookup k all ≡ some v) m

Distinct-In : (m : Map Text StoredImage) → Distinct m → In m m
unfolding lookup
Distinct-In [] d = tt
Distinct-In ((i, x) ∷ m) d = (ground arith, other m i x d.0 (Distinct-In m d.1))
  where
    ne :
        (i k : Text) (v : StoredImage) (m : Map Text StoredImage)
        → lookup i m ≡ none
        → lookup k m ≡ some v
        → i ≢ k
    ne i k v m h g p = cc

    other :
        (m : Map Text StoredImage) (i : Text) (x : StoredImage)
        → lookup i m ≡ none
        → In m m
        → In m ((i, x) ∷ m)
    other m i x h a = Each-mono _ _ m (λ k v g. ground (arith, ne i k v m h g)) a

In-erase :
    (i : Text) (m all : Map Text StoredImage) → lookup i m ≡ none → In m all → In m (erase i all)
unfolding lookup
In-erase i [] all h a = tt
In-erase i ((k, v) ∷ m) all h a =
    (ground (arith, lookup-erase i k all), In-erase i m all (ground arith) a.1)

remove-In :
    (i : Text) (img : StoredImage) (m : Map Text StoredImage) (s : Storage)
    → lookup i m ≡ none
    → In m s.images
    → In m (remove s i img).images
unfolding remove
remove-In i img m s h a = In-erase i m s.images h a

pub remove-smaller :
    (s : Storage) (i : Text) (img : StoredImage)
    → (length (remove s i img).images ≤ length s.images)
      × ((remove s i img).total_size ≤ s.total_size)
unfolding remove
remove-smaller s i img = (length-erase-le i s.images, omega arith)

-- What one turn of the loop does.
abbrev step : ℕ → Storage → Text → StoredImage → Storage
step now s i img = if is_expired now img then remove s i img else s

pick : (P : Storage → Type 0) (b : Bool) (x y : Storage) → P x → P y → P (if b then x else y)
pick P true x y p q = p
pick P false x y p q = q

on_step :
    (P : Storage → Type 0) (now : ℕ) (s : Storage) (i : Text) (img : StoredImage)
    → P (remove s i img)
    → P s
    → P (step now s i img)
on_step P now s i img p q = pick P (is_expired now img) (remove s i img) s p q

-- A predicate that a deletion keeps.
abbrev pub IsKept : (Storage → Type 0) → Type 0
IsKept P =
    (s : Storage) (id : Text) (img : StoredImage)
    → lookup id s.images ≡ some img
    → P s
    → P (remove s id img)

clean_entries-keeps :
    (P : Storage → Type 0) (now : ℕ) (m : Map Text StoredImage) (s : Storage)
    → IsKept P
    → Distinct m
    → In m s.images
    → P s
    → P (clean_entries now m s)
unfolding clean_entries
clean_entries-keeps P now [] s k d a v = v
clean_entries-keeps P now ((i, img) ∷ m) s k d a v =
    clean_entries-keeps P now m (step now s i img) k d.1
      (on_step (λ t. In m t.images) now s i img (remove-In i img m s d.0 a.1) a.1)
      (on_step P now s i img (k s i img a.0 v) v)

pub cleanup_expired-keeps :
    (P : Storage → Type 0) (now : ℕ) (s : Storage)
    → IsKept P
    → Distinct s.images
    → P s
    → P (cleanup_expired s now)
unfolding cleanup_expired
cleanup_expired-keeps P now s k d v =
    clean_entries-keeps P now s.images s k d (Distinct-In s.images d) v

pub cleanup_expired-Inv :
    (drift now : ℕ) (s : Storage) → ImagesInv drift s → ImagesInv drift (cleanup_expired s now)
cleanup_expired-Inv drift now s v =
    cleanup_expired-keeps (ImagesInv drift) now s (λ s id img at w. remove-Inv drift s id img w at)
      v.images v

remove-lookup :
    (s : Storage) (i j : Text) (img : StoredImage) (o : Option StoredImage)
    → lookup j s.images ≡ o
    → i ≢ j
    → lookup j (remove s i img).images ≡ o
unfolding remove
remove-lookup s i j img o h ne = ground (arith, lookup-erase i j s.images)

remove-gone : (s : Storage) (i : Text) (img : StoredImage) → lookup i (remove s i img).images ≡ none
unfolding remove
remove-gone s i img = ground (arith, lookup-erase i i s.images)

-- A key that is not among the entries is left as it is.
clean_entries-other :
    (now : ℕ) (m : Map Text StoredImage) (s : Storage) (j : Text)
    → lookup j m ≡ none
    → lookup j (clean_entries now m s).images ≡ lookup j s.images
unfolding clean_entries lookup
clean_entries-other now [] s j h = refl
clean_entries-other now ((i, img) ∷ m) s j h =
    let rest = clean_entries-other now m (step now s i img) j (ground arith) in
    let ne : i ≢ j = ground arith in
    rest
    ∙ on_step (λ t. lookup j t.images ≡ lookup j s.images) now s i img
        (remove-lookup s i j img _ refl ne) refl

step-lookup :
    (now : ℕ) (s : Storage) (i : Text) (x : StoredImage) (j : Text) (img : StoredImage)
    → i ≡ j
    → x ≡ img
    → lookup j s.images ≡ some img
    → lookup j (step now s i x).images ≡ (if is_expired now img then none else some img)
step-lookup now s i x j img p q g = elim (Bool-cases (is_expired now img)) [
  | inl old ↦ rw (q, old, p) (remove-gone s j img)
  | inr live ↦ rw (q, live) g
]

clean_entries-lookup :
    (now : ℕ) (m : Map Text StoredImage) (s : Storage) (j : Text) (img : StoredImage)
    → Distinct m
    → lookup j m ≡ some img
    → lookup j s.images ≡ some img
    → lookup j (clean_entries now m s).images ≡ (if is_expired now img then none else some img)
unfolding clean_entries lookup
clean_entries-lookup now [] s j img d h g = ground arith
clean_entries-lookup now ((i, x) ∷ m) s j img d h g = elim (list_discrete i j) [
  | yes p ↦
      let same : x ≡ img = ground arith in
      let rest = clean_entries-other now m (step now s i x) j (ground arith) in
      rest ∙ step-lookup now s i x j img p same g
  | no q ↦
      clean_entries-lookup now m (step now s i x) j img d.1 (ground arith)
        (on_step (λ t. lookup j t.images ≡ some img) now s i x (remove-lookup s i j x _ g q) g)
]

-- What a clean-up leaves of a key.
abbrev pub live : ℕ → Option StoredImage → Option StoredImage
live now none = none
live now (some img) = if is_expired now img then none else some img

cleaned-lookup :
    (now : ℕ) (s : Storage) (j : Text) (o : Option StoredImage)
    → Distinct s.images
    → lookup j s.images ≡ o
    → lookup j (clean_entries now s.images s).images ≡ live now o
cleaned-lookup now s j none d h = clean_entries-other now s.images s j h ∙ h
cleaned-lookup now s j (some img) d h = clean_entries-lookup now s.images s j img d h h

-- The periodic clean-up, in any order of the map: an image stays, unchanged, exactly if it has not
-- expired, and nothing new appears.
pub cleanup_expired-lookup :
    (drift now : ℕ) (s : Storage) (id : Text)
    → ImagesInv drift s
    → lookup id (cleanup_expired s now).images ≡ live now (lookup id s.images)
unfolding cleanup_expired
cleanup_expired-lookup drift now s id v = cleaned-lookup now s id (lookup id s.images) v.images refl
