-- ===== src/Images/Added.antt =====
-- One more image in the storage (internal/services/imagestorage/storage.go).
use cdev.Base.{is_empty, ℕ, ◌+◌, ◌≡◌, ◌≢◌, ◌∙◌, false, [], some, arith, string_eq}
use cdev.Base.Map.{lookup, insert, Each-insert, insert-Distinct, lookup-insert}
use cdev.Base.Text.{Text, list_discrete, text_eq}
use cdev.Images.{StoredImage, Storage}
use cdev.Images.Invariant.{ImagesInv, sizes-insert_new}
use cdev.Images.Room.{IsNew}

-- The storage with one more image.
abbrev pub with_image : Storage → Text → Text → StoredImage → Storage
with_image s id hash img = record s {
  images = insert id img s.images;
  hash_index = insert hash id s.hash_index;
  total_size = s.total_size + img.size;
}

with_image-indexed :
    (drift : ℕ) (s : Storage) (id hash : Text) (img : StoredImage)
    → ImagesInv drift s
    → IsNew id hash s
    → img.content_hash ≡ hash
    → (h j : Text) → lookup h (insert hash id s.hash_index) ≡ some j
    → (x : StoredImage) × (lookup j (insert id img s.images) ≡ some x) × (x.content_hash ≡ h)
with_image-indexed drift s id hash img v n e h j at = elim (list_discrete hash h) [
  | yes p ↦
      let same : id ≡ j = ground (arith, lookup-insert hash h id s.hash_index) in
      (img, ground (arith, lookup-insert id j img s.images), e ∙ p)
  | no q ↦
      let was : lookup h s.hash_index ≡ some j =
        ground (arith, lookup-insert hash h id s.hash_index) in
      let (x, here, its) = v.indexed h j was in
      let fresh = n.0 in
      let ne : id ≢ j = λ r. absurd (ground arith) in
      (x, ground (arith, lookup-insert id j img s.images), its)
]

with_image-found :
    (drift : ℕ) (s : Storage) (id hash : Text) (img : StoredImage)
    → ImagesInv drift s
    → IsNew id hash s
    → img.content_hash ≡ hash
    → (j : Text) (x : StoredImage) → lookup j (insert id img s.images) ≡ some x
    → x.content_hash ≢ []
    → lookup x.content_hash (insert hash id s.hash_index) ≡ some j
with_image-found drift s id hash img v n e j x at ne = elim (list_discrete id j) [
  | yes p ↦
      let same : img ≡ x = ground (arith, lookup-insert id j img s.images) in
      let own : hash ≡ x.content_hash = ground arith in
      ground (arith, lookup-insert hash x.content_hash id s.hash_index)
  | no q ↦
      let was : lookup j s.images ≡ some x = ground (arith, lookup-insert id j img s.images) in
      let index = v.found j x was ne in
      let fresh = n.1 in ground (arith, lookup-insert hash x.content_hash id s.hash_index)
]

pub with_image-Inv :
    (drift : ℕ) (s : Storage) (id hash : Text) (img : StoredImage)
    → ImagesInv drift s
    → IsNew id hash s
    → img.content_hash ≡ hash
    → img.id ≡ id
    → is_empty id ≡ false
    → ImagesInv drift (with_image s id hash img)
with_image-Inv drift s id hash img v n e i ne = record {
  images = insert-Distinct id img s.images v.images;
  ids = Each-insert (λ k x. x.id ≡ k) id img s.images i v.ids;
  named = Each-insert (λ k _. is_empty k ≡ false) id img s.images ne v.named;
  total = let size = sizes-insert_new id img s.images n.0 in let total = v.total in omega arith;
  indexed = with_image-indexed drift s id hash img v n e;
  found = with_image-found drift s id hash img v n e;
}
