-- ===== src/Images/Stats.antt =====
-- GetStats of internal/services/imagestorage/storage.go.
use cdev.Base.{ℕ, ◌||◌, [], ◌∷◌, ltb, ◌==◌, if◌then◌else◌, length, string_eq}
use cdev.Base.Map.{Map}
use cdev.Base.Text.{Text, text_eq}
use cdev.Images.{StoredImage, Storage}

pub record StorageStats : Type 0 where
  pub image_count : ℕ
  pub total_size_bytes : ℕ
  pub oldest_image : ℕ
  pub newest_image : ℕ

-- The loop of GetStats; 0 is Go's zero time
unfoldable pub stats_of : Map Text StoredImage → StorageStats → StorageStats
stats_of [] stats = stats
stats_of ((_, img) ∷ m) stats = stats_of m (record stats {
  oldest_image =
      if stats.oldest_image == 0 || ltb img.created_at stats.oldest_image
      then img.created_at
      else stats.oldest_image;
  newest_image =
      if ltb stats.newest_image img.created_at then img.created_at else stats.newest_image;
})

-- GetStats
unfoldable pub get_stats : Storage → StorageStats
get_stats s = stats_of s.images (record {
  image_count = length s.images;
  total_size_bytes = s.total_size;
  oldest_image = 0;
  newest_image = 0;
})
