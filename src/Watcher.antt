-- ===== src/Watcher.antt =====
-- Watching files (internal/adapters/watcher).
pub mod Debounce
