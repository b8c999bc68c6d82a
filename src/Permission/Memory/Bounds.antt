-- ===== src/Permission/Memory/Bounds.antt =====
-- The session memories stay within max_patterns (memory.go).
use cdev.Base.{
  String, ℕ, ◌+◌, ◌≤◌, ◌<◌, ◌≡◌, ◌≢◌, refl, Bool, [], Option, none, some, arith, inl, inr,
  Option-cases, length, dec_lt, string_eq,
}
use cdev.Base.Map.{
  Map, lookup, insert, Distinct, Each, Each-lookup, Each-insert, Each-erase, Each-retain,
  insert-Distinct, erase-Distinct, retain-Distinct, length-insert_new, length-insert_old,
  length-erase-lt, length-erase-le,
}
use cdev.Base.Text.{Text, text_eq}
use cdev.Permission.Types.{Decision, StoredDecision, SessionMemory, ToolInput}
use cdev.Permission.Memory.{
  MemoryManager, cleanup, get_or_create_session, touched, check_session, check_memory, make_room,
  remember, session_for, store_decision, clear_session, clear_workspace, used,
}
use cdev.Permission.Memory.Oldest.{Named, make_room-free, make_room-full}
use cdev.Permission.Memory.Check.{check_session_cases}

-- A session holds at most `cap` decisions, under distinct patterns that are not empty.
pub record SessionInv (cap : ℕ) (decisions : Map Text StoredDecision) : Type 0 where
  pub distinct : Distinct decisions
  pub named : Each Named decisions
  pub bounded : length decisions ≤ cap

length-insert-le :
    (k : Text) (v : StoredDecision) (m : Map Text StoredDecision)
    → length (insert k v m) ≤ length m + 1
length-insert-le k v m = elim (Option-cases (lookup k m)) [
  | inl new ↦ omega (arith, length-insert_new k v m new)
  | inr (w, old) ↦ omega (arith, length-insert_old k v w m old)
]

make_room-Inv :
    (cap : ℕ) (m : Map Text StoredDecision)
    → 1 ≤ cap
    → SessionInv cap m
    → SessionInv cap (make_room cap m) × (length (make_room cap m) < cap)
make_room-Inv cap m pos v = elim (dec_lt (length m) cap) [
  | yes free ↦ rw (make_room-free cap m free) (v, free)
  | no full ↦
      let (k, (d, at, _), _, e) = make_room-full cap m pos (omega arith) v.named v.distinct in
      rw e (
        record {
          distinct = erase-Distinct k m v.distinct;
          named = Each-erase Named k m v.named;
          bounded = omega (arith, length-erase-le k m, v.bounded);
        },
        omega (arith, length-erase-lt k d m at, v.bounded),
      )
]

insert-Inv :
    (cap : ℕ) (k : Text) (d : StoredDecision) (m : Map Text StoredDecision)
    → k ≢ []
    → SessionInv cap m
    → length m < cap
    → SessionInv cap (insert k d m)
insert-Inv cap k d m h v lt = record {
  distinct = insert-Distinct k d m v.distinct;
  named = Each-insert Named k d m h v.named;
  bounded = omega (arith, length-insert-le k d m);
}

-- Storing a decision keeps a session within its bound, also when it was full.
pub remember-Inv :
    (cap : ℕ) (mem : SessionMemory) (now : ℕ) (k : Text) (d : Decision)
    → 1 ≤ cap
    → k ≢ []
    → SessionInv cap mem.decisions
    → SessionInv cap (remember cap mem now k d).decisions
unfolding remember
remember-Inv cap mem now k d pos h v =
    let (room, lt) = make_room-Inv cap mem.decisions pos v in insert-Inv cap k _ _ h room lt

used-Inv :
    (cap : ℕ) (k : Text) (s : StoredDecision) (m : Map Text StoredDecision)
    → lookup k m ≡ some s
    → SessionInv cap m
    → SessionInv cap (insert k (used s) m)
used-Inv cap k s m at v = record {
  distinct = insert-Distinct k (used s) m v.distinct;
  named = Each-insert Named k (used s) m (Each-lookup Named k s m v.named at) v.named;
  bounded = omega (arith, length-insert_old k (used s) s m at, v.bounded);
}

module _ (glob : Text → Text → Bool) (now : ℕ) (tool : Text) (input : ToolInput) where
  check_session-Inv :
      (cap : ℕ) (mem : SessionMemory)
      → SessionInv cap mem.decisions
      → SessionInv cap (check_session glob mem now tool input).0.decisions
  check_session-Inv cap mem v = elim (check_session_cases glob now tool input mem) [
    | inl e ↦ rw e v
    | inr (k, s, at, e) ↦ rw e (used-Inv cap k s mem.decisions at v)
  ]

-- Every session of the manager is within its bound, and no session stands twice.
pub record ManagerInv (m : MemoryManager) : Type 0 where
  pub distinct : Distinct m.sessions
  pub each : Each (λ _ mem. SessionInv m.config.max_patterns mem.decisions) m.sessions

abbrev Good : MemoryManager → String → SessionMemory → Type 0
Good m _ mem = SessionInv m.config.max_patterns mem.decisions

empty-Inv : (cap : ℕ) → SessionInv cap []
empty-Inv cap = record { distinct = tt; named = tt; bounded = omega arith }

save-Inv :
    (m : MemoryManager) (id : String) (mem : SessionMemory)
    → SessionInv m.config.max_patterns mem.decisions
    → ManagerInv m
    → ManagerInv (record m { sessions = insert id mem m.sessions })
save-Inv m id mem h v = record {
  distinct = insert-Distinct id mem m.sessions v.distinct;
  each = Each-insert (Good m) id mem m.sessions h v.each;
}

pub cleanup-Inv : (m : MemoryManager) (now : ℕ) → ManagerInv m → ManagerInv (cleanup m now)
unfolding cleanup
cleanup-Inv m now v = record {
  distinct = retain-Distinct _ m.sessions v.distinct;
  each = Each-retain (Good m) _ m.sessions v.each;
}

pub clear_workspace-Inv :
    (m : MemoryManager) (id : String) → ManagerInv m → ManagerInv (clear_workspace m id)
unfolding clear_workspace
clear_workspace-Inv m id v = record {
  distinct = retain-Distinct _ m.sessions v.distinct;
  each = Each-retain (Good m) _ m.sessions v.each;
}

pub clear_session-Inv :
    (m : MemoryManager) (id : String) → ManagerInv m → ManagerInv (clear_session m id)
unfolding clear_session
clear_session-Inv m id v = record {
  distinct = erase-Distinct id m.sessions v.distinct;
  each = Each-erase (Good m) id m.sessions v.each;
}

session_for-Inv :
    (m : MemoryManager) (id ws : String) (now : ℕ)
    → ManagerInv m
    → (o : Option SessionMemory) → lookup id m.sessions ≡ o
    → SessionInv m.config.max_patterns (session_for o id ws now).decisions
session_for-Inv m id ws now v none e = empty-Inv _
session_for-Inv m id ws now v (some mem) e = Each-lookup (Good m) id mem m.sessions v.each e

pub store_decision-Inv :
    (m : MemoryManager) (now : ℕ) (id ws : String) (k : Text) (d : Decision)
    → 1 ≤ m.config.max_patterns
    → k ≢ []
    → ManagerInv m
    → ManagerInv (store_decision m now id ws k d)
unfolding store_decision
store_decision-Inv m now id ws k d pos h v =
    save-Inv m id _ (remember-Inv _ _ now k d pos h (session_for-Inv m id ws now v _ refl)) v

touched-Inv :
    (m : MemoryManager) (id ws : String) (now : ℕ)
    → ManagerInv m
    → (o : Option SessionMemory) → lookup id m.sessions ≡ o
    → SessionInv m.config.max_patterns (touched o id ws now).decisions
touched-Inv m id ws now v none e = empty-Inv _
touched-Inv m id ws now v (some mem) e = Each-lookup (Good m) id mem m.sessions v.each e

pub get_or_create_session-Inv :
    (m : MemoryManager) (now : ℕ) (id ws : String)
    → ManagerInv m
    → ManagerInv (get_or_create_session m now id ws).0
unfolding get_or_create_session
get_or_create_session-Inv m now id ws v = save-Inv m id _ (touched-Inv m id ws now v _ refl) v

pub check_memory-Inv :
    (glob : Text → Text → Bool) (m : MemoryManager) (now : ℕ) (id : String) (tool : Text)
    (input : ToolInput)
    → ManagerInv m
    → ManagerInv (check_memory glob m now id tool input).0
unfolding check_memory
check_memory-Inv glob m now id tool input v = elim (Option-cases (lookup id m.sessions)) [
  | inl missing ↦ rw (missing, check_memory) v
  | inr (mem, found) ↦
      rw (found, check_memory)
        (save-Inv m id _
          (check_session-Inv glob now tool input _ mem
            (Each-lookup (Good m) id mem m.sessions v.each found))
          v)
]
