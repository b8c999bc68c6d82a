-- ===== src/Images/Load.antt =====
-- New and loadExistingImages of internal/services/imagestorage/storage.go.
use cdev.Base.{
  is_empty, String, ℕ, ◌+◌, Bool, ◌&&◌, ◌||◌, List, [], ◌∷◌, Option, none, some, leb, ◌==◌,
  if◌then◌else◌, map, string_eq,
}
use cdev.Base.Map.{Map, insert}
use cdev.Base.Text.{Text, codes, same, has_prefix, has_suffix, trim_prefix, trim_suffix, text_eq}
use cdev.Permission.Paths.{ext}
use cdev.Images.{StoredImage, Storage, image_ttl, cdev_images_dir, join_name, supported_mime_types}

abbrev mime_in : Text → Map String Text → String
mime_in e [] = "application/octet-stream"
mime_in e ((mime, x) ∷ m) = if same x e then mime else mime_in e m

-- strings.ToLower, as far as its letters are ASCII: two others, İ and the Kelvin sign, become ASCII
abbrev lower_letter : ℕ → ℕ
lower_letter c =
    if leb 65 c && leb c 90 then c + 32 else if c == 304 then 105 else if c == 8490 then 107 else c

abbrev pub to_lower : Text → Text
to_lower s = map lower_letter s

-- extensionToMimeType
unfoldable pub extension_to_mime_type : Text → String
unfolding same supported_mime_types
extension_to_mime_type e = mime_in (to_lower e) supported_mime_types

-- extractIDFromFilename
unfoldable pub extract_id_from_filename : Text → Text
extract_id_from_filename filename =
    if has_prefix filename (codes "img_")
    then (let name = trim_prefix filename (codes "img_") in trim_suffix name (ext name))
    else []

-- What os.ReadDir and Info tell of a file; none when Info fails.
pub record DirEntry : Type 0 where
  pub name : Text
  pub is_dir : Bool
  pub info : Option (ℕ × ℕ)

abbrev pub loaded : Text → Text → ℕ → ℕ → StoredImage
loaded base_dir name size mod_time = record {
  id = extract_id_from_filename name;
  local_path = join_name cdev_images_dir name;
  full_path = join_name base_dir name;
  mime_type = extension_to_mime_type (ext name);
  size = size;
  content_hash = [];
  created_at = mod_time;
  expires_at = mod_time + image_ttl;
}

abbrev pub load_info : Storage → Text → Option (ℕ × ℕ) → Storage
load_info s name none = s
load_info s name (some (size, mod_time)) =
    if is_empty (extract_id_from_filename name) then s else record s {
      images =
          insert (extract_id_from_filename name) (loaded s.base_dir name size mod_time) s.images;
      total_size = s.total_size + size;
    }

abbrev pub is_skipped : DirEntry → Bool
is_skipped f = f.is_dir || (has_prefix f.name (codes ".") || has_suffix f.name (codes ".tmp"))

-- The loop of loadExistingImages.
unfoldable pub load_files : Storage → List DirEntry → Storage
load_files s [] = s
load_files s (f ∷ fs) = load_files (if is_skipped f then s else load_info s f.name f.info) fs

-- New, with the files of the images directory
unfoldable pub new_storage : Text → List DirEntry → Storage
new_storage base_dir files =
    load_files (record { base_dir = base_dir; images = []; hash_index = []; total_size = 0 }) files
