-- ===== src/Watcher/Debounce.antt =====
-- internal/adapters/watcher/debounce.go: rapid changes of a file become one event. The runtime's
-- timers are part of the state: the armed ones, and those that went off and whose function waits
-- for the mutex, each with the path that it fires. A new timer has a fresh name.
pub mod Merge
pub mod Timers
pub mod Reported
mod Tests
use cdev.Base.{
  String, ℕ, Bool, true, false, not, List, [], ◌∷◌, Option, none, some, if◌then◌else◌, string_eq,
  nat_eq,
}
use cdev.Base.Map.{Map, lookup, insert, erase}

-- events.FileChangeType
pub data FileChangeType : Type 0 where
  created modified deleted renamed : FileChangeType

pub record DebouncedEvent : Type 0 where
  pub path : String
  pub change_type : FileChangeType
  pub timer : ℕ

pub record Debouncer : Type 0 where
  pub pending : Map String DebouncedEvent
  pub stopped : Bool
  pub armed : Map ℕ String
  pub gone_off : Map ℕ String

-- NewDebouncer
unfoldable pub new_debouncer : Debouncer
new_debouncer = record { pending = []; stopped = false; armed = []; gone_off = [] }

-- mergeChangeTypes
abbrev pub merge_change_types : FileChangeType → FileChangeType → FileChangeType
merge_change_types existing deleted = deleted
merge_change_types created _ = created
merge_change_types existing new_type = new_type

-- existing.Timer.Stop(): a timer that went off is not stopped
abbrev pub stop_timer : Debouncer → Option DebouncedEvent → Map ℕ String
stop_timer d none = d.armed
stop_timer d (some existing) = erase existing.timer d.armed

abbrev pub merged : Option DebouncedEvent → FileChangeType → FileChangeType
merged none change_type = change_type
merged (some existing) change_type = merge_change_types existing.change_type change_type

-- Add, with the name of the timer that it makes
unfoldable pub add : Debouncer → String → FileChangeType → ℕ → Debouncer
add d path change_type timer =
    if d.stopped
    then d
    else (let existing = lookup path d.pending in
        record d {
          pending =
              insert path
                (record { path = path; change_type = merged existing change_type; timer = timer })
                d.pending;
          armed = insert timer path (stop_timer d existing);
        })

-- A timer goes off.
abbrev pub elapse : Debouncer → ℕ → Option String → Debouncer
elapse d timer none = d
elapse d timer (some path) = record d {
  armed = erase timer d.armed;
  gone_off = insert timer path d.gone_off;
}

-- What the callback is called with.
abbrev pub called : Bool → Option DebouncedEvent → Option (String × FileChangeType)
called stopped none = none
called true (some event) = none
called false (some event) = some (event.path, event.change_type)

-- fire
unfoldable pub fire : Debouncer → String → Debouncer × Option (String × FileChangeType)
fire d path =
    (record d { pending = erase path d.pending }, called d.stopped (lookup path d.pending))

-- The loop of Stop
unfoldable pub stop_timers : Map String DebouncedEvent → Map ℕ String → Map ℕ String
stop_timers [] armed = armed
stop_timers ((path, event) ∷ m) armed = stop_timers m (erase event.timer armed)

-- Stop: a timer that no pending change has stays armed
unfoldable pub stop : Debouncer → Debouncer
stop d = record d { stopped = true; pending = []; armed = stop_timers d.pending d.armed }
