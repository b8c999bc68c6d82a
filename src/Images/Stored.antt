-- ===== src/Images/Stored.antt =====
-- Store of internal/services/imagestorage/storage.go: the storage after an upload.
use cdev.Base.{
  is_empty, ℕ, ◌+◌, ◌≡◌, ◌⊎◌, inl, inr, refl, ◌∙◌, false, Option, none, some, Bool-cases,
  Option-cases, length, String, string_eq, ap, ltb, ◌++◌,
}
use cdev.Base.Map.{lookup}
use cdev.Base.Text.{Text, codes, take, text_eq}
use cdev.Images.{
  StoredImage, Storage, ImageError, can_accept_upload, max_single_image, image_ttl, join_name,
  cdev_images_dir, supported_mime_types,
}
use cdev.Images.Upload.{
  make_room, Outside, keep, keep_in, store_new, renew, store, store_or_renew, store_read,
  store_typed, duplicate, image_at, with_id, validate_magic_bytes,
}
use cdev.Images.Invariant.{ImagesInv}
use cdev.Images.Cleaned.{IsKept}
use cdev.Images.Room.{make_room-fits, make_room-keeps, make_room-Inv, IsNew, IsNew-IsKept}
use cdev.Images.Added.{with_image}

-- What a new upload becomes.
abbrev pub image_of : Storage → Text → String → Text → Text → Outside → StoredImage
image_of s e mime_type bytes hash o =
    let filename = codes "img_" ++ o.id ++ e in
    record {
      id = o.id;
      local_path = join_name cdev_images_dir filename;
      full_path = join_name s.base_dir filename;
      mime_type = mime_type;
      size = length bytes;
      content_hash = hash;
      created_at = o.stored_at;
      expires_at = o.stored_at + image_ttl;
    }

-- A predicate that a new image keeps where it has room, and one that a renewed image keeps.
abbrev pub IsKeptByNew : ℕ → (Storage → Type 0) → Type 0
IsKeptByNew drift P =
    (s : Storage) (id hash : Text) (img : StoredImage)
    → ImagesInv drift s
    → IsNew id hash s
    → img.content_hash ≡ hash
    → img.id ≡ id
    → is_empty id ≡ false
    → can_accept_upload s img.size ≡ none
    → P s
    → P (with_image s id hash img)

abbrev pub IsKeptByRenewal : ℕ → (Storage → Type 0) → Type 0
IsKeptByRenewal drift P =
    (s : Storage) (id : Text) (img : StoredImage) (now : ℕ)
    → ImagesInv drift s
    → lookup id s.images ≡ some img
    → P s
    → P (renew s id img now).0

keep_in-keeps :
    (drift : ℕ) (P : Storage → Type 0) (s : Storage) (r : Option ImageError) (e : Text)
    (mime_type : String) (bytes hash : Text) (o : Outside)
    → IsKeptByNew drift P
    → ImagesInv drift s
    → IsNew o.id hash s
    → is_empty o.id ≡ false
    → (r ≡ none → can_accept_upload s (length bytes) ≡ none)
    → P s
    → P (keep_in (s, r) e mime_type bytes hash o).0
keep_in-keeps drift P s (some err) e mime_type bytes hash o k v n i fits p = p
keep_in-keeps drift P s none e mime_type bytes hash o k v n i fits p = on o.write_error
  where
    on : (w : Option String) → P (keep s e mime_type bytes hash o w).0
    on (some err) = p
    on none = k s o.id hash (image_of s e mime_type bytes hash o) v n refl refl i (fits refl) p

store_new-keeps :
    (drift : ℕ) (P : Storage → Type 0) (s : Storage) (e : Text) (mime_type : String)
    (bytes hash : Text) (o : Outside)
    → IsKept P
    → IsKeptByNew drift P
    → ImagesInv drift s
    → IsNew o.id hash s
    → is_empty o.id ≡ false
    → P s
    → P (store_new s e mime_type bytes hash o).0
unfolding store_new
store_new-keeps drift P s e mime_type bytes hash o k kn v n i p =
    let size = length bytes in
    keep_in-keeps drift P (make_room s size o.checked_at).0 (make_room s size o.checked_at).1 e
      mime_type bytes hash o kn (make_room-Inv drift s size o.checked_at v)
      (make_room-keeps drift (IsNew o.id hash) s size o.checked_at (IsNew-IsKept o.id hash) v n) i
      (make_room-fits s size o.checked_at) (make_room-keeps drift P s size o.checked_at k v p)

-- Without a duplicate the index does not have the content hash.
pub duplicate-cases :
    (drift : ℕ) (s : Storage) (hash : Text)
    → ImagesInv drift s
    → ((duplicate s hash ≡ none) × (lookup hash s.hash_index ≡ none))
      ⊎ ((id : Text) × (img : StoredImage) × (duplicate s hash ≡ some (id, img))
          × (lookup hash s.hash_index ≡ some id)
          × (lookup id s.images ≡ some img)
          × (img.content_hash ≡ hash))
duplicate-cases drift s hash v = elim (Option-cases (lookup hash s.hash_index)) [
  | inl missing ↦ inl (ap (image_at s) missing, missing)
  | inr (id, there) ↦
      let (img, at, its) = v.indexed hash id there in
      inr (id, img, ap (image_at s) there ∙ ap (with_id id) at, there, at, its)
]

store_or_renew-keeps :
    (drift : ℕ) (P : Storage → Type 0) (s : Storage) (e : Text) (mime_type : String)
    (bytes hash : Text) (o : Outside)
    → IsKept P
    → IsKeptByNew drift P
    → IsKeptByRenewal drift P
    → ImagesInv drift s
    → lookup o.id s.images ≡ none
    → is_empty o.id ≡ false
    → P s
    → P (store_or_renew s e mime_type bytes hash o (duplicate s hash)).0
store_or_renew-keeps drift P s e mime_type bytes hash o k kn kr v n i p =
    elim (duplicate-cases drift s hash v) [
      | inl (none_there, missing) ↦
          rw none_there (store_new-keeps drift P s e mime_type bytes hash o k kn v (n, missing) i p)
      | inr (id, img, there, _, at, its) ↦ rw there (kr s id img o.checked_at v at p)
    ]

module _ (sha256 : Text → Text) where
  store_read-keeps :
      (drift : ℕ) (P : Storage → Type 0) (s : Storage) (e : Text) (mime_type : String)
      (bytes : Text) (o : Outside) (r : Option String)
      → IsKept P
      → IsKeptByNew drift P
      → IsKeptByRenewal drift P
      → ImagesInv drift s
      → lookup o.id s.images ≡ none
      → is_empty o.id ≡ false
      → P s
      → P (store_read sha256 s e mime_type bytes o r).0
  store_read-keeps drift P s e mime_type bytes o (some err) k kn kr v n i p = p
  store_read-keeps drift P s e mime_type bytes o none k kn kr v n i p =
      elim (Bool-cases (ltb max_single_image (length bytes))) [
        | inl large ↦ rw large p
        | inr small ↦ elim (Bool-cases (validate_magic_bytes bytes mime_type)) [
          | inr bad ↦ rw (small, bad) p
          | inl good ↦
              rw (small, good)
                (store_or_renew-keeps drift P s e mime_type bytes (sha256 bytes) o k kn kr v n i p)
        ]
      ]

  pub store-keeps :
      (drift : ℕ) (P : Storage → Type 0) (s : Storage) (content : Text) (mime_type : String)
      (o : Outside)
      → IsKept P
      → IsKeptByNew drift P
      → IsKeptByRenewal drift P
      → ImagesInv drift s
      → lookup o.id s.images ≡ none
      → is_empty o.id ≡ false
      → P s
      → P (store sha256 s content mime_type o).0
  unfolding store
  store-keeps drift P s content mime_type o k kn kr v n i p =
      on (lookup mime_type supported_mime_types)
    where
      on : (e : Option Text) → P (store_typed sha256 s content mime_type o e).0
      on none = p
      on (some e) =
          store_read-keeps drift P s e mime_type (take (max_single_image + 1) content) o
            o.read_error k kn kr v n i p
