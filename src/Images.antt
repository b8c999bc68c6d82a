-- ===== src/Images.antt =====
-- internal/services/imagestorage/storage.go: uploaded images with limits on their number and size, a
-- life time, and one copy per content. Texts and contents are lists of numbers. Sizes are int64 in
-- the source; the total never falls below the sizes that are taken from it. Of the file system the
-- model has what its calls return, as arguments.
pub mod Load
pub mod Upload
pub mod Stats
pub mod Invariant
pub mod Cleaned
pub mod Room
pub mod Renewed
pub mod Serving
pub mod Again
pub mod Loaded
pub mod Opened
pub mod Added
pub mod Stored
pub mod Oldest
mod Tests
use cdev.Base.{
  is_empty, String, ℕ, ◌+◌, ◌-◌, ◌*◌, Bool, true, false, not, ◌&&◌, ◌||◌, List, [], ◌∷◌, ◌++◌,
  Option, none, some, ltb, leb, ◌==◌, if◌then◌else◌, length, map, string_eq, test, string_discrete,
  is_some,
}
use cdev.Base.Map.{Map, lookup, insert, erase}
use cdev.Base.Text.{
  Text, codes, same, has_prefix, has_suffix, trim_prefix, trim_suffix, drop, take, text_eq,
}
use cdev.Permission.Paths.{ext}

unfoldable pub supported_mime_types : Map String Text
supported_mime_types =
    ("image/jpeg", codes ".jpg")
    ∷ ("image/png", codes ".png")
    ∷ ("image/gif", codes ".gif")
    ∷ ("image/webp", codes ".webp")
    ∷ []

pub record StoredImage : Type 0 where
  pub id : Text
  pub local_path : Text
  pub full_path : Text
  pub mime_type : String
  pub size : ℕ
  pub content_hash : Text
  pub created_at : ℕ
  pub expires_at : ℕ

pub record Storage : Type 0 where
  pub base_dir : Text
  pub images : Map Text StoredImage
  pub hash_index : Map Text Text
  pub total_size : ℕ

abbrev pub max_images_count : ℕ
max_images_count = 50

unfoldable pub max_total_size : ℕ
max_total_size = 100 * 1024 * 1024

unfoldable pub max_single_image : ℕ
max_single_image = 10 * 1024 * 1024

-- ImageTTL, in nanoseconds as every time here
abbrev pub image_ttl : ℕ
image_ttl = 3600000000000

abbrev pub cdev_images_dir : Text
cdev_images_dir = codes ".cdev/images"

pub data ImageError : Type 0 where
  unsupported_image_type : String → ImageError
  read_failed write_failed delete_failed : String → ImageError
  image_too_large invalid_image_format too_many_images storage_full : ImageError
  image_not_found image_file_not_found : Text → ImageError

-- filepath.Join of a clean directory and a file name
abbrev pub join_name : Text → Text → Text
join_name dir name = dir ++ b'/' ∷ name

-- canAcceptUploadLocked: the reason why not
unfoldable pub can_accept_upload : Storage → ℕ → Option ImageError
can_accept_upload s size_bytes =
    if ltb max_single_image size_bytes
    then some image_too_large
    else if leb max_images_count (length s.images)
    then some too_many_images
    else if ltb max_total_size (s.total_size + size_bytes)
    then some storage_full
    else none

-- What the deletions have in common.
unfoldable pub remove : Storage → Text → StoredImage → Storage
remove s id img = record s {
  images = erase id s.images;
  hash_index = erase img.content_hash s.hash_index;
  total_size = s.total_size - img.size;
}

abbrev pub is_expired : ℕ → StoredImage → Bool
is_expired now img = ltb img.expires_at now

-- The loop of cleanupExpiredLocked over the entries that are left.
unfoldable pub clean_entries : ℕ → Map Text StoredImage → Storage → Storage
clean_entries now [] s = s
clean_entries now ((id, img) ∷ m) s =
    clean_entries now m (if is_expired now img then remove s id img else s)

-- cleanupExpiredLocked, Cleanup
unfoldable pub cleanup_expired : Storage → ℕ → Storage
cleanup_expired s now = clean_entries now s.images s

-- The loop of evictOldestLocked: the oldest id so far, which is empty at first, and its time.
abbrev pub oldest_from : Text → ℕ → Map Text StoredImage → Text
oldest_from oldest_id oldest_time [] = oldest_id
oldest_from oldest_id oldest_time ((id, img) ∷ m) =
    if is_empty oldest_id || ltb img.created_at oldest_time
    then oldest_from id img.created_at m
    else oldest_from oldest_id oldest_time m

abbrev remove_found : Storage → Text → Option StoredImage → Storage
remove_found s id none = s
remove_found s id (some img) = remove s id img

-- evictOldestLocked: the id is one of the map
unfoldable pub evict_oldest : Storage → Storage
evict_oldest s =
    let id = oldest_from [] 0 s.images in
    if is_empty id then s else remove_found s id (lookup id s.images)

pub data Result : Type 0 where
  ok : StoredImage → Result
  failed : ImageError → Result

abbrev found_file : Text → Bool → Option StoredImage → Result
found_file id exists none = failed (image_not_found id)
found_file id exists (some img) = if exists then ok img else failed (image_file_not_found id)

-- Get; whether the file is there is an argument
unfoldable pub get : Storage → Text → Bool → Result
get s id exists = found_file id exists (lookup id s.images)

abbrev pub delete_found :
    Storage → Text → Option String → Option StoredImage → Storage × Option ImageError
delete_found s id io none = (s, some (image_not_found id))
delete_found s id (some err) (some img) = (s, some (delete_failed err))
delete_found s id none (some img) = (remove s id img, none)

-- Delete, with the error of os.Remove other than a missing file
unfoldable pub delete : Storage → Text → Option String → Storage × Option ImageError
delete s id io = delete_found s id io (lookup id s.images)

-- Clear
abbrev pub clear : Storage → Storage
clear s = record s { images = []; hash_index = []; total_size = 0 }
