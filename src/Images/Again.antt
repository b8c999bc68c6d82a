-- ===== src/Images/Again.antt =====
-- Store of internal/services/imagestorage/storage.go, called twice with one content.
use cdev.Base.{string_eq}
use cdev.Base.Text.{Text, text_eq}
