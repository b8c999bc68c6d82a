-- ===== src/Images/Room.antt =====
-- Store of internal/services/imagestorage/storage.go: making room, and what it leaves.
use cdev.Base.{ℕ, ◌+◌, ◌≤◌, ◌<◌, ◌≡◌, inl, inr, none, arith, Bool-cases, length, is_some}
use cdev.Base.Map.{lookup, lookup-erase}
use cdev.Base.Text.{Text, text_eq}
use cdev.Images.{Storage, remove, can_accept_upload, cleanup_expired, max_total_size}
use cdev.Images.Upload.{make_room}
use cdev.Images.Invariant.{ImagesInv, remove-Inv}
use cdev.Images.Cleaned.{IsKept, cleanup_expired-keeps, cleanup_expired-Inv}
use cdev.Images.Oldest.{evict_oldest-keeps}

pub make_room-keeps :
    (drift : ℕ) (P : Storage → Type 0) (s : Storage) (size now : ℕ)
    → IsKept P
    → ImagesInv drift s
    → P s
    → P (make_room s size now).0
make_room-keeps drift P s size now k v p = elim (Bool-cases (is_some (can_accept_upload s size))) [
  | inr fits ↦ rw fits p
  | inl full ↦
      let v1 = cleanup_expired-Inv drift now s v in
      let p1 = cleanup_expired-keeps P now s k v.images p in
      elim (Bool-cases (is_some (can_accept_upload (cleanup_expired s now) size))) [
        | inr fits ↦ rw (full, fits) p1
        | inl again ↦ rw (full, again) (evict_oldest-keeps drift P _ k v1 p1)
      ]
]

pub make_room-fits :
    (s : Storage) (size now : ℕ)
    → (make_room s size now).1 ≡ none
    → can_accept_upload (make_room s size now).0 size ≡ none
make_room-fits s size now h = ground arith

pub make_room-Inv :
    (drift : ℕ) (s : Storage) (size now : ℕ)
    → ImagesInv drift s
    → ImagesInv drift (make_room s size now).0
make_room-Inv drift s size now v =
    make_room-keeps drift (ImagesInv drift) s size now
      (λ s id img at w. remove-Inv drift s id img w at) v v

-- Neither the id nor the content hash stands in the storage.
abbrev pub IsNew : Text → Text → Storage → Type 0
IsNew id hash s = (lookup id s.images ≡ none) × (lookup hash s.hash_index ≡ none)

pub IsNew-IsKept : (id hash : Text) → IsKept (IsNew id hash)
unfolding remove
IsNew-IsKept id hash s j img at n = (
  ground (arith, n.0, lookup-erase j id s.images),
  ground (arith, n.1, lookup-erase img.content_hash hash s.hash_index),
)

pub accepted :
    (s : Storage) (size : ℕ)
    → can_accept_upload s size ≡ none
    → (length s.images < 50) × (s.total_size + size ≤ max_total_size)
unfolding can_accept_upload
accepted s size h = ground arith
