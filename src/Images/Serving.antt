-- ===== src/Images/Serving.antt =====
-- The calls of the image storage in any order (internal/services/imagestorage/storage.go).
use cdev.Base.{
  is_empty, ℕ, ◌+◌, ◌≤◌, ◌≡◌, refl, false, List, [], ◌∷◌, Option, none, some, arith, length, String,
}
use cdev.Base.Map.{lookup, length-insert_new, length-insert_old}
use cdev.Base.Text.{Text, text_eq}
use cdev.Images.{
  StoredImage, Storage, cleanup_expired, max_total_size, delete, delete_found, clear, image_ttl,
}
use cdev.Images.Upload.{Outside, store, renew}
use cdev.Images.Invariant.{ImagesInv, remove-Inv}
use cdev.Images.Cleaned.{remove-smaller, cleanup_expired-keeps, IsKept}
use cdev.Images.Room.{accepted}
use cdev.Images.Renewed.{renew-Inv}
use cdev.Images.Added.{with_image-Inv}
use cdev.Images.Stored.{store-keeps, IsKeptByNew, IsKeptByRenewal}

-- The limits that the storage promises.
abbrev pub IsInLimits : Storage → Type 0
IsInLimits s = (length s.images ≤ 50) × (s.total_size ≤ max_total_size)

abbrev pub IsSound : ℕ → Storage → Type 0
IsSound drift s = ImagesInv drift s × IsInLimits s

remove-IsSound : (drift : ℕ) → IsKept (IsSound drift)
remove-IsSound drift s id img at (v, l) =
    let less = remove-smaller s id img in
    (remove-Inv drift s id img v at, (omega arith, omega arith))

new-IsSound : (drift : ℕ) → IsKeptByNew drift (IsSound drift)
new-IsSound drift s id hash img v n e i ne fits (_, l) =
    let room = accepted s img.size fits in
    let longer = length-insert_new id img s.images n.0 in
    (with_image-Inv drift s id hash img v n e i ne, (omega arith, omega arith))

renew-IsInLimits : (drift : ℕ) → IsKeptByRenewal drift IsInLimits
unfolding renew
renew-IsInLimits drift s id img now v at l =
    let same = length-insert_old id (record img { expires_at = now + image_ttl }) img s.images at in
    (omega arith, l.1)

renew-IsSound : (drift : ℕ) → IsKeptByRenewal drift (IsSound drift)
renew-IsSound drift s id img now v at (_, l) =
    (renew-Inv drift s id img now v at v, renew-IsInLimits drift s id img now v at l)

-- A call, with what it finds outside.
pub data Call : Type 0 where
  to_store : Text → String → Outside → Call
  to_delete : Text → Option String → Call
  to_cleanup : ℕ → Call
  to_clear : Call

module _ (sha256 : Text → Text) where
  abbrev pub run : Storage → Call → Storage
  run s (to_store content mime_type o) = (store sha256 s content mime_type o).0
  run s (to_delete id io) = (delete s id io).0
  run s (to_cleanup now) = cleanup_expired s now
  run s to_clear = clear s

  unfoldable pub run_all : Storage → List Call → Storage
  run_all s [] = s
  run_all s (c ∷ cs) = run_all (run s c) cs

  -- The UUIDs are fresh and not empty.
  abbrev pub IsFresh : Storage → Call → Type 0
  IsFresh s (to_store _ _ o) = (lookup o.id s.images ≡ none) × (is_empty o.id ≡ false)
  IsFresh s _ = Unit

  abbrev pub AllFresh : Storage → List Call → Type 0
  AllFresh s [] = Unit
  AllFresh s (c ∷ cs) = IsFresh s c × AllFresh (run s c) cs

  -- Clearing forgets the drift.
  abbrev pub drift_of : ℕ → Call → ℕ
  drift_of drift to_clear = 0
  drift_of drift c = drift

  abbrev pub drift_after : ℕ → List Call → ℕ
  drift_after drift [] = drift
  drift_after drift (c ∷ cs) = drift_after (drift_of drift c) cs

  delete_found-IsSound :
      (drift : ℕ) (s : Storage) (id : Text) (io : Option String) (o : Option StoredImage)
      → lookup id s.images ≡ o
      → IsSound drift s
      → IsSound drift (delete_found s id io o).0
  delete_found-IsSound drift s id io none at v = v
  delete_found-IsSound drift s id (some err) (some img) at v = v
  delete_found-IsSound drift s id none (some img) at v = remove-IsSound drift s id img at v

  delete-IsSound :
      (drift : ℕ) (s : Storage) (id : Text) (io : Option String)
      → IsSound drift s
      → IsSound drift (delete s id io).0
  unfolding delete
  delete-IsSound drift s id io v = delete_found-IsSound drift s id io (lookup id s.images) refl v

  clear-IsSound : (s : Storage) → IsSound 0 (clear s)
  unfolding lookup
  clear-IsSound s = (
    record {
      images = tt;
      ids = tt;
      named = tt;
      total = refl;
      indexed = λ hash id h. absurd (cc);
      found = λ id img h ne. absurd (cc);
    },
    (omega arith, omega arith),
  )

  run-IsSound :
      (drift : ℕ) (s : Storage) (c : Call)
      → IsSound drift s
      → IsFresh s c
      → IsSound (drift_of drift c) (run s c)
  run-IsSound drift s (to_store content mime_type o) v f =
      store-keeps sha256 drift (IsSound drift) s content mime_type o (remove-IsSound drift)
        (new-IsSound drift) (renew-IsSound drift) v.0 f.0 f.1 v
  run-IsSound drift s (to_delete id io) v f = delete-IsSound drift s id io v
  run-IsSound drift s (to_cleanup now) v f =
      cleanup_expired-keeps (IsSound drift) now s (remove-IsSound drift) v.0.images v
  run-IsSound drift s to_clear v f = clear-IsSound s

  -- Uploads, deletions, clean-ups and clearings in any order, with UUIDs that are not in use, on a
  -- storage within its limits whose index and total are right up to a drift of the total: after them
  -- that holds again, with at most 50 images and 100 MB, whatever reading and writing return. The
  -- drift is the same, or 0 after a clearing.
  pub run_all-IsSound :
      (drift : ℕ) (s : Storage) (cs : List Call)
      → IsSound drift s
      → AllFresh s cs
      → IsSound (drift_after drift cs) (run_all s cs)
  unfolding run_all
  run_all-IsSound drift s [] v f = v
  run_all-IsSound drift s (c ∷ cs) v f =
      run_all-IsSound (drift_of drift c) (run s c) cs (run-IsSound drift s c v f.0) f.1
