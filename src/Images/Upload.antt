-- ===== src/Images/Upload.antt =====
-- Store of internal/services/imagestorage/storage.go: an upload is checked, found stored already, or
-- given room and kept. The content is what the reader would give in all; the SHA-256 sum is a
-- parameter.
use cdev.Base.{
  String, ℕ, ◌+◌, Bool, true, false, ◌&&◌, [], ◌∷◌, ◌++◌, Option, none, some, ltb, leb, ◌==◌,
  if◌then◌else◌, length, string_eq, test, string_discrete, is_some,
}
use cdev.Base.Map.{Map, lookup, insert}
use cdev.Base.Text.{Text, codes, drop, take, text_eq}
use cdev.Images.{
  StoredImage, Storage, ImageError, Result, ok, failed, can_accept_upload, cleanup_expired,
  evict_oldest, max_single_image, image_ttl, cdev_images_dir, join_name, supported_mime_types,
  image_too_large, invalid_image_format, unsupported_image_type, read_failed, write_failed,
}

unfoldable pub magic_bytes : Map String Text
magic_bytes =
    ("image/jpeg", 255 ∷ 216 ∷ 255 ∷ [])
    ∷ ("image/png", 137 ∷ 80 ∷ 78 ∷ 71 ∷ [])
    ∷ ("image/gif", 71 ∷ 73 ∷ 70 ∷ 56 ∷ [])
    ∷ ("image/webp", 82 ∷ 73 ∷ 70 ∷ 70 ∷ [])
    ∷ []

-- Compares as many bytes as the second list has, which is no longer than the first.
abbrev starts_with_bytes : Text → Text → Bool
starts_with_bytes bytes [] = true
starts_with_bytes [] (b ∷ bs) = false
starts_with_bytes (d ∷ ds) (b ∷ bs) = d == b && starts_with_bytes ds bs

abbrev webp_signed : Text → Bool
webp_signed bytes = leb 12 (length bytes) && starts_with_bytes (drop 8 bytes) (codes "WEBP")

abbrev magic_matches : Text → String → Option Text → Bool
magic_matches bytes mime_type none = false
magic_matches bytes mime_type (some expected) =
    leb (length expected) (length bytes)
    && (starts_with_bytes bytes expected
        && (if test (string_discrete mime_type "image/webp") then webp_signed bytes else true))

-- validateMagicBytes
unfoldable pub validate_magic_bytes : Text → String → Bool
validate_magic_bytes bytes mime_type = magic_matches bytes mime_type (lookup mime_type magic_bytes)

-- The storage limits part of Store: the state after it, and the reason why the image has no room.
abbrev pub make_room : Storage → ℕ → ℕ → Storage × Option ImageError
make_room s size now =
    if is_some (can_accept_upload s size)
    then (let s1 = cleanup_expired s now in
        if is_some (can_accept_upload s1 size)
        then (let s2 = evict_oldest s1 in (s2, can_accept_upload s2 size))
        else (s1, none))
    else (s, none)

-- What a call of Store finds outside: reading, its two readings of the clock, the start of a random
-- UUID, and writing the file. LimitReader is in `store`.
pub record Outside : Type 0 where
  pub read_error : Option String
  pub checked_at : ℕ
  pub stored_at : ℕ
  pub id : Text
  pub write_error : Option String

-- Store, once there is room
abbrev pub keep : Storage → Text → String → Text → Text → Outside → Option String → Storage × Result
keep s e mime_type bytes hash o (some err) = (s, failed (write_failed err))
keep s e mime_type bytes hash o none =
    let filename = codes "img_" ++ o.id ++ e in
    let img : StoredImage = record {
      id = o.id;
      local_path = join_name cdev_images_dir filename;
      full_path = join_name s.base_dir filename;
      mime_type = mime_type;
      size = length bytes;
      content_hash = hash;
      created_at = o.stored_at;
      expires_at = o.stored_at + image_ttl;
    } in
    (
      record s {
        images = insert o.id img s.images;
        hash_index = insert hash o.id s.hash_index;
        total_size = s.total_size + length bytes;
      },
      ok img,
    )

abbrev pub keep_in :
    Storage × Option ImageError → Text → String → Text → Text → Outside → Storage × Result
keep_in (s, some err) e mime_type bytes hash o = (s, failed err)
keep_in (s, none) e mime_type bytes hash o = keep s e mime_type bytes hash o o.write_error

-- Store, for a content that is not stored yet
unfoldable pub store_new : Storage → Text → String → Text → Text → Outside → Storage × Result
store_new s e mime_type bytes hash o =
    keep_in (make_room s (length bytes) o.checked_at) e mime_type bytes hash o

-- Store, for a content that is stored already
unfoldable pub renew : Storage → Text → StoredImage → ℕ → Storage × Result
renew s id img now =
    let img' = record img { expires_at = now + image_ttl } in
    (record s { images = insert id img' s.images }, ok img')

abbrev pub with_id : Text → Option StoredImage → Option (Text × StoredImage)
with_id id none = none
with_id id (some img) = some (id, img)

abbrev pub image_at : Storage → Option Text → Option (Text × StoredImage)
image_at s none = none
image_at s (some id) = with_id id (lookup id s.images)

-- The image of a content.
abbrev pub duplicate : Storage → Text → Option (Text × StoredImage)
duplicate s hash = image_at s (lookup hash s.hash_index)

abbrev pub store_or_renew :
    Storage → Text → String → Text → Text → Outside → Option (Text × StoredImage) → Storage × Result
store_or_renew s e mime_type bytes hash o (some (id, img)) = renew s id img o.checked_at
store_or_renew s e mime_type bytes hash o none = store_new s e mime_type bytes hash o

-- The text of a SHA-256 sum.
module _ (sha256 : Text → Text) where
  abbrev pub store_read :
      Storage → Text → String → Text → Outside → Option String → Storage × Result
  store_read s e mime_type bytes o (some err) = (s, failed (read_failed err))
  store_read s e mime_type bytes o none =
      if ltb max_single_image (length bytes)
      then (s, failed image_too_large)
      else if validate_magic_bytes bytes mime_type
      then store_or_renew s e mime_type bytes (sha256 bytes) o (duplicate s (sha256 bytes))
      else (s, failed invalid_image_format)

  abbrev pub store_typed : Storage → Text → String → Outside → Option Text → Storage × Result
  store_typed s content mime_type o none = (s, failed (unsupported_image_type mime_type))
  store_typed s content mime_type o (some e) =
      store_read s e mime_type (take (max_single_image + 1) content) o o.read_error

  -- Store, with all that the reader would give
  unfoldable pub store : Storage → Text → String → Outside → Storage × Result
  store s content mime_type o =
      store_typed s content mime_type o (lookup mime_type supported_mime_types)
