-- ===== src/Images/Opened.antt =====
-- Which files of the directory New takes for images (internal/services/imagestorage/storage.go).
use cdev.Base.{
  is_empty, ℕ, ◌+◌, ◌-◌, ◌≡◌, refl, ◌∙◌, ap, subst, Bool, not, ◌&&◌, List, [], ◌∷◌, Option, none,
  some, arith, if◌then◌else◌, ite,
}
use cdev.Base.Map.{lookup, lookup-insert}
use cdev.Base.Text.{Text, codes, text_eq, has_prefix, has_suffix}
use cdev.Images.{StoredImage, Storage}
use cdev.Images.Load.{
  DirEntry, load_info, load_files, is_skipped, new_storage, extract_id_from_filename, loaded,
}
use cdev.Images.Invariant.{ImagesInv, sizes}
use cdev.Images.Loaded.{new_storage-Inv}

-- A file that is neither a directory nor hidden nor half written, and whose name gives an id.
abbrev pub is_image : DirEntry → Bool
is_image f =
    not f.is_dir
    && (not (has_prefix f.name (codes "."))
        && (not (has_suffix f.name (codes ".tmp"))
            && not (is_empty (extract_id_from_filename f.name))))

abbrev first_of {ℓ} : {A : Type ℓ} → Option A → Option A → Option A
first_of (some x) o = some x
first_of none o = o

-- The size and the time of change that such a file gives for an id.
abbrev info_for : Text → DirEntry → Option (ℕ × ℕ)
info_for id f =
    if is_image f
    then ite (text_eq.dec_eq (extract_id_from_filename f.name) id) f.info none
    else none

-- Those of the last file with this id.
abbrev pub last_info : Text → List DirEntry → Option (ℕ × ℕ)
last_info id [] = none
last_info id (f ∷ fs) = first_of (last_info id fs) (info_for id f)

abbrev size_in : Option (ℕ × ℕ) → ℕ
size_in none = 0
size_in (some (size, _)) = size

-- The sizes of all such files.
abbrev pub file_sizes : List DirEntry → ℕ
file_sizes [] = 0
file_sizes (f ∷ fs) = (if is_image f then size_in f.info else 0) + file_sizes fs

abbrev pub size_and_time : Option StoredImage → Option (ℕ × ℕ)
size_and_time none = none
size_and_time (some img) = some (img.size, img.created_at)

-- One turn of the loop.
abbrev loaded_one : Storage → DirEntry → Storage
loaded_one s f = if is_skipped f then s else load_info s f.name f.info

loaded_one-images :
    (s : Storage) (name : Text) (dir : Bool) (info : Option (ℕ × ℕ)) (id : Text)
    → let f : DirEntry = record { name = name; is_dir = dir; info = info } in
      size_and_time (lookup id (loaded_one s f).images)
      ≡ first_of (info_for id f) (size_and_time (lookup id s.images))
loaded_one-images s name dir none id = ground arith
loaded_one-images s name dir (some (size, time)) id =
    let key = extract_id_from_filename name in
    ground (arith, lookup-insert key id (loaded s.base_dir name size time) s.images)

loaded_one-total :
    (s : Storage) (name : Text) (dir : Bool) (info : Option (ℕ × ℕ))
    → let f : DirEntry = record { name = name; is_dir = dir; info = info } in
      (loaded_one s f).total_size ≡ s.total_size + (if is_image f then size_in info else 0)
loaded_one-total s name dir none = ground arith
loaded_one-total s name dir (some (size, time)) = ground arith

loaded_one-index :
    (s : Storage) (name : Text) (dir : Bool) (info : Option (ℕ × ℕ))
    → (loaded_one s (record { name = name; is_dir = dir; info = info })).hash_index ≡ s.hash_index
loaded_one-index s name dir none = ground arith
loaded_one-index s name dir (some i) = ground arith

first_of_assoc {ℓ} :
    {A : Type ℓ} (a b c : Option A) → first_of a (first_of b c) ≡ first_of (first_of a b) c
first_of_assoc none b c = refl
first_of_assoc (some x) b c = refl

load_files-images :
    (s : Storage) (fs : List DirEntry) (id : Text)
    → size_and_time (lookup id (load_files s fs).images)
      ≡ first_of (last_info id fs) (size_and_time (lookup id s.images))
unfolding load_files
load_files-images s [] id = refl
load_files-images s (f ∷ fs) id =
    load_files-images (loaded_one s f) fs id
    ∙ ap (first_of (last_info id fs)) (loaded_one-images s f.name f.is_dir f.info id)
    ∙ first_of_assoc (last_info id fs) (info_for id f) (size_and_time (lookup id s.images))

load_files-total :
    (s : Storage) (fs : List DirEntry) → (load_files s fs).total_size ≡ s.total_size + file_sizes fs
unfolding load_files
load_files-total s [] = omega arith
load_files-total s (f ∷ fs) =
    omega (arith, load_files-total (loaded_one s f) fs, loaded_one-total s f.name f.is_dir f.info)

load_files-index : (s : Storage) (fs : List DirEntry) → (load_files s fs).hash_index ≡ s.hash_index
unfolding load_files
load_files-index s [] = refl
load_files-index s (f ∷ fs) =
    load_files-index (loaded_one s f) fs ∙ loaded_one-index s f.name f.is_dir f.info

first_of-none {ℓ} : {A : Type ℓ} (o : Option A) → first_of o none ≡ o
first_of-none none = refl
first_of-none (some x) = refl

-- Opening the storage of a directory, whatever entries stand in it and in any order. Take for image
-- files those that are no directory, whose name neither starts with a dot nor ends in ".tmp", and
-- gives an id that is not empty. Then an id has an image exactly if the size and time of some
-- image file with that id could be read, and the image has those of the last such file. The total is
-- the sum of the sizes of all the image files, nothing is in the index of contents, and the storage
-- is well-formed with a total that is above the sizes of its images by the rest of that sum.
pub new_storage-images :
    (base_dir : Text) (files : List DirEntry)
    → let s = new_storage base_dir files in
      ((id : Text) → size_and_time (lookup id s.images) ≡ last_info id files)
      × (s.total_size ≡ file_sizes files)
      × (s.hash_index ≡ [])
      × ImagesInv (file_sizes files - sizes s.images) s
unfolding new_storage lookup
new_storage-images base_dir files =
    let s = new_storage base_dir files in
    let empty : Storage = record {
      base_dir = base_dir;
      images = [];
      hash_index = [];
      total_size = 0;
    } in
    let total : s.total_size ≡ file_sizes files = omega (arith, load_files-total empty files) in
    let v = new_storage-Inv base_dir files in
    (
      λ id. load_files-images empty files id ∙ first_of-none (last_info id files),
      total,
      load_files-index empty files,
      subst (λ d. ImagesInv d s) {y = file_sizes files - sizes s.images}
          (omega (arith, v.total, total)) v,
    )
