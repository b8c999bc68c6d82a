-- ===== src/Images/Invariant.antt =====
-- What holds of the image storage between the calls (storage.go).
use cdev.Base.{is_empty, ℕ, ◌+◌, ◌≡◌, ◌≢◌, false, [], ◌∷◌, none, some, arith}
use cdev.Base.Map.{
  Map, lookup, insert, erase, Distinct, Each, Each-erase, erase-Distinct, lookup-erase, erase_fresh,
}
use cdev.Base.Text.{Text, list_discrete, text_eq}
use cdev.Images.{StoredImage, Storage, remove}

abbrev pub sizes : Map Text StoredImage → ℕ
sizes [] = 0
sizes ((_, img) ∷ m) = img.size + sizes m

pub sizes-erase :
    (id : Text) (img : StoredImage) (m : Map Text StoredImage)
    → Distinct m
    → lookup id m ≡ some img
    → sizes (erase id m) + img.size ≡ sizes m
unfolding lookup erase
sizes-erase id img [] d h = ground arith
sizes-erase id img ((i, x) ∷ m) d h = ground (arith, sizes-erase id img m d.1, erase_fresh id m)

pub sizes-insert_new :
    (id : Text) (img : StoredImage) (m : Map Text StoredImage)
    → lookup id m ≡ none
    → sizes (insert id img m) ≡ sizes m + img.size
unfolding lookup insert
sizes-insert_new id img [] h = omega arith
sizes-insert_new id img ((i, x) ∷ m) h = ground (arith, sizes-insert_new id img m)

pub sizes-insert_same :
    (id : Text) (img old : StoredImage) (m : Map Text StoredImage)
    → img.size ≡ old.size
    → lookup id m ≡ some old
    → sizes (insert id img m) ≡ sizes m
unfolding lookup insert
sizes-insert_same id img old [] e h = ground arith
sizes-insert_same id img old ((i, x) ∷ m) e h = ground (arith, sizes-insert_same id img old m e)

-- The total may be above the sum of the sizes by a drift, which loading can bring in. The index
-- has the id of an image for every content hash that is not empty, and of no other.
pub record ImagesInv (drift : ℕ) (s : Storage) : Type 0 where
  pub images : Distinct s.images
  pub ids : Each (λ id img. img.id ≡ id) s.images
  pub named : Each (λ id _. is_empty id ≡ false) s.images
  pub total : s.total_size ≡ sizes s.images + drift
  pub indexed :
      (hash id : Text)
      → lookup hash s.hash_index ≡ some id
      → (img : StoredImage) × (lookup id s.images ≡ some img) × (img.content_hash ≡ hash)
  pub found :
      (id : Text) (img : StoredImage)
      → lookup id s.images ≡ some img
      → img.content_hash ≢ []
      → lookup img.content_hash s.hash_index ≡ some id

remove-indexed :
    (drift : ℕ) (s : Storage) (id : Text) (img : StoredImage)
    → ImagesInv drift s
    → lookup id s.images ≡ some img
    → (hash j : Text) → lookup hash (erase img.content_hash s.hash_index) ≡ some j
    → (other : StoredImage) × (lookup j (erase id s.images) ≡ some other)
      × (other.content_hash ≡ hash)
remove-indexed drift s id img v at hash j h = elim (list_discrete img.content_hash hash) [
  | yes same ↦ absurd (ground (arith, lookup-erase img.content_hash hash s.hash_index))
  | no new ↦
      let was : lookup hash s.hash_index ≡ some j =
        ground (arith, lookup-erase img.content_hash hash s.hash_index) in
      let (other, here, its) = v.indexed hash j was in
      (other, ground (arith, lookup-erase id j s.images), its)
]

remove-found :
    (drift : ℕ) (s : Storage) (id : Text) (img : StoredImage)
    → ImagesInv drift s
    → lookup id s.images ≡ some img
    → (j : Text) (other : StoredImage) → lookup j (erase id s.images) ≡ some other
    → other.content_hash ≢ []
    → lookup other.content_hash (erase img.content_hash s.hash_index) ≡ some j
remove-found drift s id img v at j other h ne =
    let was : (id ≢ j) × (lookup j s.images ≡ some other) =
      ground (arith, lookup-erase id j s.images) in
    let index = v.found j other was.1 ne in
    ground (arith, lookup-erase img.content_hash other.content_hash s.hash_index, v.found id img at)

pub remove-Inv :
    (drift : ℕ) (s : Storage) (id : Text) (img : StoredImage)
    → ImagesInv drift s
    → lookup id s.images ≡ some img
    → ImagesInv drift (remove s id img)
unfolding remove
remove-Inv drift s id img v at = record {
  images = erase-Distinct id s.images v.images;
  ids = Each-erase (λ k x. x.id ≡ k) id s.images v.ids;
  named = Each-erase (λ k _. is_empty k ≡ false) id s.images v.named;
  total = let size = sizes-erase id img s.images v.images at in let total = v.total in omega arith;
  indexed = remove-indexed drift s id img v at;
  found = remove-found drift s id img v at;
}
