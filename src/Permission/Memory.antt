-- ===== src/Permission/Memory.antt =====
-- internal/permission/memory.go: the decisions that each Claude session remembers, and the
-- requests that wait for an answer. A method holds the manager's mutex, so it is one step; `now`
-- is the time that it reads. The buffers of the response channels are part of the state.
pub mod Check
pub mod Oldest
pub mod Bounds
use cdev.Base.{
  is_empty, String, ℕ, ◌+◌, ◌-◌, Bool, ◌||◌, not, List, [], ◌∷◌, Option, none, some, ltb, leb,
  if◌then◌else◌, length, test, string_discrete, string_eq, nat_eq,
}
use cdev.Base.Map.{Map, lookup, insert, erase, retain}
use cdev.Base.Text.{Text, text_eq}
use cdev.Permission.Types.{
  Decision, ToolInput, Request, Response, StoredDecision, SessionMemory, SessionMemoryConfig,
}
use cdev.Permission.Pattern.{generate_pattern, match_pattern}

pub record MemoryManager : Type 0 where
  pub sessions : Map String SessionMemory
  pub config : SessionMemoryConfig
  pub pending : Map String Request
  pub channels : Map ℕ (List Response)

-- NewMemoryManager
unfoldable pub new_memory_manager : SessionMemoryConfig → MemoryManager
new_memory_manager config = record { sessions = []; config = config; pending = []; channels = [] }

-- cleanup: now.Sub(mem.LastAccess) > m.config.TTL deletes the session
unfoldable pub cleanup : MemoryManager → ℕ → MemoryManager
cleanup m now = record m {
  sessions = retain (λ _ mem. not (ltb m.config.ttl (now - mem.last_access))) m.sessions;
}

abbrev new_session : String → String → ℕ → SessionMemory
new_session session_id workspace_id now = record {
  session_id = session_id;
  workspace_id = workspace_id;
  decisions = [];
  created_at = now;
  last_access = now;
}

abbrev pub touched : Option SessionMemory → String → String → ℕ → SessionMemory
touched none session_id workspace_id now = new_session session_id workspace_id now
touched (some mem) session_id workspace_id now = record mem { last_access = now }

-- GetOrCreateSession
unfoldable pub get_or_create_session :
    MemoryManager → ℕ → String → String → MemoryManager × SessionMemory
get_or_create_session m now session_id workspace_id =
    let mem = touched (lookup session_id m.sessions) session_id workspace_id now in
    (record m { sessions = insert session_id mem m.sessions }, mem)

-- The loop over the stored patterns: the first entry that passes the test.
unfoldable pub find_entry : (Text → Bool) → Map Text StoredDecision → Option (Text × StoredDecision)
find_entry p [] = none
find_entry p ((k, d) ∷ m) = if p k then some (k, d) else find_entry p m

-- decision.UsageCount++; mem.Decisions[pattern] = decision
abbrev pub used : StoredDecision → StoredDecision
used d = record d { usage_count = d.usage_count + 1 }

abbrev pub answer_with :
    SessionMemory → Option (Text × StoredDecision) → SessionMemory × Option StoredDecision
answer_with mem none = (mem, none)
answer_with mem (some (p, d)) =
    (record mem { decisions = insert p (used d) mem.decisions }, some (used d))

-- The exact pattern first, then the others.
abbrev pub find_decision :
    (Text → Bool)
    → Text
    → Option StoredDecision
    → Map Text StoredDecision
    → Option (Text × StoredDecision)
find_decision p pattern (some d) m = some (pattern, d)
find_decision p pattern none m = find_entry p m

abbrev pub save_session :
    MemoryManager
    → String
    → SessionMemory × Option StoredDecision
    → MemoryManager × Option StoredDecision
save_session m session_id (mem, found) =
    (record m { sessions = insert session_id mem m.sessions }, found)

module _ (glob : Text → Text → Bool) where
  unfoldable pub check_session :
      SessionMemory → ℕ → Text → ToolInput → SessionMemory × Option StoredDecision
  check_session mem now tool input =
      let pattern = generate_pattern tool input in
      answer_with (record mem { last_access = now })
        (find_decision (λ p. match_pattern glob p tool input) pattern (lookup pattern mem.decisions)
          mem.decisions)

  -- CheckMemory
  unfoldable pub check_memory :
      MemoryManager → ℕ → String → Text → ToolInput → MemoryManager × Option StoredDecision
  check_memory m now session_id tool input = elim (lookup session_id m.sessions) [
    | none ↦ (m, none)
    | some mem ↦ save_session m session_id (check_session mem now tool input)
  ]

-- The loop that looks for the oldest decision: its pattern and its time. An empty pattern stands
-- for "none yet".
unfoldable pub oldest_from : Text → ℕ → Map Text StoredDecision → Text
oldest_from p t [] = p
oldest_from p t ((k, d) ∷ m) =
    let newer = is_empty p || ltb d.created_at t in
    oldest_from (if newer then k else p) (if newer then d.created_at else t) m

abbrev drop_pattern : Text → Map Text StoredDecision → Map Text StoredDecision
drop_pattern p m = if is_empty p then m else erase p m

unfoldable pub make_room : ℕ → Map Text StoredDecision → Map Text StoredDecision
make_room max_patterns m =
    if leb max_patterns (length m) then drop_pattern (oldest_from [] 0 m) m else m

abbrev pub session_for : Option SessionMemory → String → String → ℕ → SessionMemory
session_for none session_id workspace_id now = new_session session_id workspace_id now
session_for (some mem) session_id workspace_id now = mem

unfoldable pub remember : ℕ → SessionMemory → ℕ → Text → Decision → SessionMemory
remember max_patterns mem now pattern decision = record mem {
  decisions =
      insert pattern
        (record { pattern = pattern; decision = decision; created_at = now; usage_count = 1 })
        (make_room max_patterns mem.decisions);
  last_access = now;
}

-- StoreDecision
unfoldable pub store_decision :
    MemoryManager → ℕ → String → String → Text → Decision → MemoryManager
store_decision m now session_id workspace_id pattern decision =
    let mem = session_for (lookup session_id m.sessions) session_id workspace_id now in
    record m {
      sessions =
          insert session_id (remember m.config.max_patterns mem now pattern decision) m.sessions;
    }

-- ClearSession
unfoldable pub clear_session : MemoryManager → String → MemoryManager
clear_session m session_id = record m { sessions = erase session_id m.sessions }

-- ClearWorkspace
unfoldable pub clear_workspace : MemoryManager → String → MemoryManager
clear_workspace m workspace_id = record m {
  sessions =
      retain (λ _ mem. not (test (string_discrete mem.workspace_id workspace_id))) m.sessions;
}

-- GetSessionStats: active_sessions, total_patterns, pending_requests
unfoldable pub get_session_stats : MemoryManager → ℕ × ℕ × ℕ
get_session_stats m = (length m.sessions, total m.sessions, length m.pending)
  where
    total : Map String SessionMemory → ℕ
    total [] = 0
    total ((_, mem) ∷ rest) = length mem.decisions + total rest
