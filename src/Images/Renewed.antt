-- ===== src/Images/Renewed.antt =====
-- Store of internal/services/imagestorage/storage.go, for a content that is stored already.
use cdev.Base.{is_empty, ℕ, ◌+◌, ◌≡◌, ◌≢◌, refl, sym, ap, false, ◌∙◌, [], some, arith}
use cdev.Base.Map.{lookup, insert, Each-insert, insert-Distinct, lookup-insert, Each-lookup}
use cdev.Base.Text.{Text, list_discrete, text_eq}
use cdev.Images.{StoredImage, Storage, image_ttl}
use cdev.Images.Upload.{renew}
use cdev.Images.Invariant.{ImagesInv, sizes-insert_same}
use cdev.Images.Stored.{IsKeptByRenewal}

renew-indexed :
    (drift : ℕ) (s : Storage) (id : Text) (img : StoredImage) (expires : ℕ)
    → ImagesInv drift s
    → lookup id s.images ≡ some img
    → (hash j : Text) → lookup hash s.hash_index ≡ some j
    → (x : StoredImage) × (lookup j (insert id (record img { expires_at = expires }) s.images)
        ≡ some x)
      × (x.content_hash ≡ hash)
renew-indexed drift s id img expires v at hash j h = elim (list_discrete id j) [
  | yes p ↦
      let (x, here, its) = v.indexed hash j h in
      let same : img ≡ x = ground arith in
      (
        record img { expires_at = expires },
        ground (arith, lookup-insert id j (record img { expires_at = expires }) s.images),
        ap (λ y. StoredImage.content_hash y) same ∙ its,
      )
  | no q ↦
      let (x, here, its) = v.indexed hash j h in
      (x, ground (arith, lookup-insert id j (record img { expires_at = expires }) s.images), its)
]

renew-found :
    (drift : ℕ) (s : Storage) (id : Text) (img : StoredImage) (expires : ℕ)
    → ImagesInv drift s
    → lookup id s.images ≡ some img
    → (j : Text) (x : StoredImage)
    → lookup j (insert id (record img { expires_at = expires }) s.images) ≡ some x
    → x.content_hash ≢ []
    → lookup x.content_hash s.hash_index ≡ some j
renew-found drift s id img expires v at j x h ne = elim (list_discrete id j) [
  | yes p ↦
      let same : some (record img { expires_at = expires }) ≡ some x =
        ground (arith, lookup-insert id j (record img { expires_at = expires }) s.images) in
      let own : img.content_hash ≡ x.content_hash = ground arith in
      let index = v.found id img at (λ e. ne (sym own ∙ e)) in ground arith
  | no q ↦
      v.found j x
        (ground (arith, lookup-insert id j (record img { expires_at = expires }) s.images)) ne
]

pub renew-Inv : (drift : ℕ) → IsKeptByRenewal drift (ImagesInv drift)
unfolding renew
renew-Inv drift s id img now v at _ = record {
  images = insert-Distinct id _ s.images v.images;
  ids =
      Each-insert (λ k x. x.id ≡ k) id _ s.images
        (Each-lookup (λ k x. x.id ≡ k) id img s.images v.ids at) v.ids;
  named =
      Each-insert (λ k _. is_empty k ≡ false) id _ s.images
        (Each-lookup (λ k _. is_empty k ≡ false) id img s.images v.named at) v.named;
  total =
      let size =
        sizes-insert_same id (record img { expires_at = now + image_ttl }) img s.images refl at in
      let total = v.total in omega arith;
  indexed = renew-indexed drift s id img (now + image_ttl) v at;
  found = renew-found drift s id img (now + image_ttl) v at;
}
