-- ===== src/Images/Tests.antt =====
-- Runs of the image storage (internal/services/imagestorage/storage.go) on small contents, where
-- the sum of a content is the content itself.
use cdev.Base.{
  ℕ, ◌-◌, ◌≡◌, ◌≢◌, refl, List, [], ◌∷◌, false, length, arith, map, string_discrete, none, some,
  String, string_eq,
}
use cdev.Base.Map.{Map, lookup, insert, erase}
use cdev.Base.Text.{
  Text, codes, text_eq, has_prefix, has_suffix, trim_suffix, trim_prefix, list_discrete,
}
use cdev.Permission.Paths.{ext}
use cdev.Images.{
  StoredImage, Storage, max_single_image, max_total_size, can_accept_upload, clean_entries, remove,
  evict_oldest, cleanup_expired, supported_mime_types,
}
use cdev.Images.Load.{DirEntry, new_storage, load_files, extract_id_from_filename}
use cdev.Images.Upload.{Outside, validate_magic_bytes, magic_bytes, store_new, store, renew}
use cdev.Images.Invariant.{ImagesInv, sizes}
use cdev.Images.Loaded.{new_storage-Inv, replaced}
use cdev.Images.Opened.{new_storage-images, size_and_time, last_info, file_sizes}
use cdev.Images.Serving.{Call, to_store, to_cleanup, run_all, run_all-IsSound, AllFresh, IsSound}
use cdev.Images.Oldest.{evict_oldest-IsOldest, IsOldest}
use cdev.Images.Cleaned.{cleanup_expired-lookup, live}

abbrev identity : Text → Text
identity bytes = bytes

abbrev at : ℕ → String → Outside
at now id = record {
  read_error = none;
  checked_at = now;
  stored_at = now;
  id = codes id;
  write_error = none;
}

abbrev gif : Text
gif = 71 ∷ 73 ∷ 70 ∷ 56 ∷ 1 ∷ []

abbrev png : Text
png = 137 ∷ 80 ∷ 78 ∷ 71 ∷ []

abbrev file : String → ℕ → DirEntry
file name size = record { name = codes name; is_dir = false; info = some (size, 7) }

-- Two files with one id and different extensions, and a hidden one.
abbrev clashing_files : List DirEntry
clashing_files = file "img_a.png" 10 ∷ file ".hidden" 3 ∷ file "img_a.jpg" 5 ∷ []

abbrev clashing : Storage
clashing = new_storage (codes "/w") clashing_files

new_storage-images_example :
    ((id : Text) → size_and_time (lookup id clashing.images) ≡ last_info id clashing_files)
    × (clashing.total_size ≡ file_sizes clashing_files)
    × (clashing.hash_index ≡ [])
    × ImagesInv (file_sizes clashing_files - sizes clashing.images) clashing
new_storage-images_example = new_storage-images (codes "/w") clashing_files

-- The total counts both files, the storage has one image.
clashing_total : (clashing.total_size ≡ 15) × (length clashing.images ≡ 1)
unfolding new_storage load_files has_prefix has_suffix extract_id_from_filename trim_suffix ext
    trim_prefix insert
clashing_total = (refl, refl)

abbrev empty_storage : Storage
empty_storage = new_storage (codes "/w") []

empty_storage-IsSound : IsSound 0 empty_storage
unfolding new_storage load_files replaced
empty_storage-IsSound = (new_storage-Inv (codes "/w") [], (omega arith, omega arith))

-- Two uploads, one of them twice, and a clean-up when the first has expired.
abbrev calls : List Call
calls =
    to_store gif "image/gif" (at 5 "x")
    ∷ to_store png "image/png" (at 3600000000000 "y")
    ∷ to_store png "image/png" (at 3600000000001 "z")
    ∷ to_cleanup 3600000000006
    ∷ []

calls-AllFresh : AllFresh identity empty_storage calls
unfolding store lookup supported_mime_types string_discrete max_single_image validate_magic_bytes
    magic_bytes new_storage load_files store_new can_accept_upload max_total_size list_discrete
    erase insert
calls-AllFresh = ((refl, refl), ((refl, refl), ((refl, refl), (tt, tt))))

run_all-IsSound_example : IsSound 0 (run_all identity empty_storage calls)
run_all-IsSound_example =
    run_all-IsSound identity 0 empty_storage calls empty_storage-IsSound calls-AllFresh

calls_images :
    map (λ (e : Text × StoredImage). e.0) (run_all identity empty_storage calls).images
    ≡ codes "y" ∷ []
unfolding store lookup supported_mime_types string_discrete max_single_image validate_magic_bytes
    magic_bytes new_storage load_files store_new can_accept_upload max_total_size list_discrete
    erase insert cleanup_expired clean_entries remove run_all renew
calls_images = refl

abbrev once : Storage
once = (store identity empty_storage gif "image/gif" (at 5 "x")).0

abbrev gif_image : StoredImage
gif_image = record {
  id = codes "x";
  local_path = codes ".cdev/images/img_x.gif";
  full_path = codes "/w/img_x.gif";
  mime_type = "image/gif";
  size = 5;
  content_hash = gif;
  created_at = 5;
  expires_at = 3600000000005;
}

once-Inv : ImagesInv 0 once
unfolding lookup new_storage load_files store run_all
once-Inv =
    (run_all-IsSound identity 0 empty_storage (to_store gif "image/gif" (at 5 "x") ∷ [])
      empty_storage-IsSound ((refl, refl), tt)).0

once_some : once.images ≢ []
unfolding store lookup supported_mime_types string_discrete max_single_image validate_magic_bytes
    magic_bytes new_storage load_files store_new can_accept_upload max_total_size insert
once_some h = cons_ne_nil h
  where
    cons_ne_nil :
        {x : Text × StoredImage} {m : Map Text StoredImage}
        → ◌≢◌ {A = Map Text StoredImage} (x ∷ m) []
    cons_ne_nil h = cc

evict_oldest-IsOldest_example :
    (id : Text) × (img : StoredImage) × IsOldest once.images id img
    × (evict_oldest once ≡ remove once id img)
evict_oldest-IsOldest_example = evict_oldest-IsOldest 0 once once-Inv once_some

cleanup_expired-lookup_example :
    lookup (codes "x") (cleanup_expired once 3600000000006).images
    ≡ live 3600000000006 (lookup (codes "x") once.images)
cleanup_expired-lookup_example = cleanup_expired-lookup 0 3600000000006 once (codes "x") once-Inv
