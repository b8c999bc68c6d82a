-- ===== src/Permission/Service/Deliver.antt =====
-- A waiting permission request receives the response of the client (permission.go).
use cdev.Base.{string_eq, nat_eq}
use cdev.Base.Text.{Text}
