-- ===== src/Images/Loaded.antt =====
-- What New makes of the files in the directory (internal/services/imagestorage/storage.go).
use cdev.Base.{
  is_empty, ℕ, ◌+◌, ◌≡◌, refl, subst, Bool, true, false, List, [], ◌∷◌, Option, none, some, arith,
  Bool-cases, inl, inr, if◌then◌else◌,
}
use cdev.Base.Map.{Map, lookup, insert, Distinct, Each, Each-insert, Each-lookup, insert-Distinct}
use cdev.Base.Text.{Text, text_eq}
use cdev.Images.{StoredImage, Storage}
use cdev.Images.Load.{
  DirEntry, load_info, load_files, is_skipped, new_storage, extract_id_from_filename, loaded,
}
use cdev.Images.Invariant.{ImagesInv, sizes}

size_of : Option StoredImage → ℕ
size_of none = 0
size_of (some img) = img.size

sizes-insert :
    (id : Text) (img : StoredImage) (m : Map Text StoredImage)
    → sizes (insert id img m) + size_of (lookup id m) ≡ sizes m + img.size
unfolding lookup insert size_of
sizes-insert id img [] = omega arith
sizes-insert id img ((i, x) ∷ m) = ground (arith, sizes-insert id img m)

-- The size of the image that a file replaces.
abbrev replaced_by : Storage → Text → Option (ℕ × ℕ) → ℕ
replaced_by s name none = 0
replaced_by s name (some i) =
    if is_empty (extract_id_from_filename name)
    then 0
    else size_of (lookup (extract_id_from_filename name) s.images)

-- The sizes of the images that later files with the same id replace.
unfoldable pub replaced : Storage → List DirEntry → ℕ
unfolding size_of
replaced s [] = 0
replaced s (f ∷ fs) =
    let rest = replaced (if is_skipped f then s else load_info s f.name f.info) fs in
    if is_skipped f then rest else replaced_by s f.name f.info + rest

-- While the files are loaded.
record LoadedInv (drift : ℕ) (s : Storage) : Type 0 where
  images : Distinct s.images
  ids : Each (λ id img. img.id ≡ id) s.images
  named : Each (λ id _. is_empty id ≡ false) s.images
  total : s.total_size ≡ sizes s.images + drift
  unhashed : Each (λ _ img. img.content_hash ≡ []) s.images
  index : s.hash_index ≡ []

no_drift : (drift : ℕ) (s : Storage) → LoadedInv drift s → LoadedInv (drift + 0) s
no_drift drift s v = subst (λ d. LoadedInv d s) {y = drift + 0} (omega arith) v

load_info-Inv :
    (drift : ℕ) (s : Storage) (name : Text) (i : Option (ℕ × ℕ))
    → LoadedInv drift s
    → LoadedInv (drift + replaced_by s name i) (load_info s name i)
load_info-Inv drift s name none v = no_drift drift s v
load_info-Inv drift s name (some (size, mod_time)) v =
    let id = extract_id_from_filename name in
    elim (Bool-cases (is_empty id)) [
      | inl nameless ↦ rw nameless (no_drift drift s v)
      | inr ok_name ↦ rw ok_name (record {
        images = insert-Distinct id _ s.images v.images;
        ids = Each-insert (λ k x. x.id ≡ k) id _ s.images refl v.ids;
        named = Each-insert (λ k _. is_empty k ≡ false) id _ s.images ok_name v.named;
        total =
            let size_now = sizes-insert id (loaded s.base_dir name size mod_time) s.images in
            let total = v.total in omega arith;
        unhashed = Each-insert (λ _ x. x.content_hash ≡ []) id _ s.images refl v.unhashed;
        index = v.index;
      })
    ]

loaded-next :
    (b : Bool) (drift n : ℕ) (s t : Storage)
    → LoadedInv drift s
    → LoadedInv (drift + n) t
    → LoadedInv (if b then drift else drift + n) (if b then s else t)
loaded-next true drift n s t v w = v
loaded-next false drift n s t v w = w

later :
    (b : Bool) (drift n rest : ℕ)
    → (if b then drift else drift + n) + rest ≡ drift + (if b then rest else n + rest)
later true drift n rest = refl
later false drift n rest = omega arith

load_files-Inv :
    (drift : ℕ) (s : Storage) (fs : List DirEntry)
    → LoadedInv drift s
    → LoadedInv (drift + replaced s fs) (load_files s fs)
unfolding replaced load_files
load_files-Inv drift s [] v = no_drift drift s v
load_files-Inv drift s (f ∷ fs) v =
    let b = is_skipped f in
    let n = replaced_by s f.name f.info in
    let s1 = load_info s f.name f.info in
    let rest = replaced (if b then s else s1) fs in
    subst (λ d. LoadedInv d (load_files (if b then s else s1) fs)) (later b drift n rest)
      (load_files-Inv (if b then drift else drift + n) (if b then s else s1) fs
        (loaded-next b drift n s s1 v (load_info-Inv drift s f.name f.info v)))

LoadedInv-Inv : (drift : ℕ) (s : Storage) → LoadedInv drift s → ImagesInv drift s
unfolding lookup
LoadedInv-Inv drift s v = record {
  images = v.images;
  ids = v.ids;
  named = v.named;
  total = v.total;
  indexed = λ hash id h. absurd (nothing hash id s.hash_index v.index h);
  found = λ id img h ne.
      absurd (ne (Each-lookup (λ _ x. x.content_hash ≡ []) id img s.images v.unhashed h));
}
  where
    nothing : (hash id : Text) (m : Map Text Text) → m ≡ [] → lookup hash m ≡ some id → ⊥
    nothing hash id [] e h = cc
    nothing hash id (x ∷ m) e h = cc

-- Opening the storage of a directory, whatever files and other entries stand in it and in any order:
-- what it holds is in order, and its total is above the sum of the sizes by those that were replaced.
pub new_storage-Inv :
    (base_dir : Text) (files : List DirEntry)
    → ImagesInv (replaced (new_storage base_dir []) files) (new_storage base_dir files)
unfolding new_storage load_files
new_storage-Inv base_dir files =
    let none_loaded : LoadedInv 0 (new_storage base_dir []) = record {
      images = tt;
      ids = tt;
      named = tt;
      total = refl;
      unhashed = tt;
      index = refl;
    } in
    LoadedInv-Inv _ _ (
      subst (λ d. LoadedInv d (load_files (new_storage base_dir []) files))
        {y = replaced (new_storage base_dir []) files} (omega arith)
        (load_files-Inv 0 (new_storage base_dir []) files none_loaded))
