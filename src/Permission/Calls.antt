-- ===== src/Permission/Calls.antt =====
-- Every method of MemoryManager, in any order (memory.go).
use cdev.Base.{
  is_empty, String, ℕ, ◌≤◌, ◌≡◌, ◌≢◌, refl, sym, ◌∙◌, subst, Bool, List, [], ◌∷◌, arith, string_eq,
  nat_eq, All, inl, inr, Option-cases, Bool-cases, not, ◌&&◌,
}
use cdev.Base.Map.{lookup, erase, Distinct, insert-Distinct, erase-Distinct}
use cdev.Base.Text.{Text}
use cdev.Permission.Types.{Decision, ToolInput, Request, Response, SessionMemoryConfig}
use cdev.Permission.Memory.{
  MemoryManager, new_memory_manager, cleanup, get_or_create_session, check_memory, store_decision,
  clear_session, clear_workspace,
}
use cdev.Permission.Memory.Bounds.{
  ManagerInv, cleanup-Inv, get_or_create_session-Inv, check_memory-Inv, store_decision-Inv,
  clear_session-Inv, clear_workspace-Inv,
}
use cdev.Permission.Pending.{
  add_pending_request, remove_pending_request, respond_to_request, get_and_remove_pending_request,
  store_response, is_session,
}

pub data Call : Type 0 where
  cleans : ℕ → Call
  gets : ℕ → String → String → Call
  checks : ℕ → String → Text → ToolInput → Call
  stores : ℕ → String → String → Text → Decision → Call
  clears_session clears_workspace : String → Call
  adds : Request → Call
  removes takes : String → Call
  responds : ℕ → String → Response → Call

-- Every caller stores a decision under a pattern that is not empty.
abbrev pub IsNamed : Call → Type 0
IsNamed (stores now id ws pattern d) = pattern ≢ []
IsNamed _ = Unit

module _ (glob : Text → Text → Bool) where
  unfoldable pub step : MemoryManager → Call → MemoryManager
  step m (cleans now) = cleanup m now
  step m (gets now id ws) = (get_or_create_session m now id ws).0
  step m (checks now id tool input) = (check_memory glob m now id tool input).0
  step m (stores now id ws pattern d) = store_decision m now id ws pattern d
  step m (clears_session id) = clear_session m id
  step m (clears_workspace id) = clear_workspace m id
  step m (adds req) = add_pending_request m req
  step m (removes id) = remove_pending_request m id
  step m (takes id) = (get_and_remove_pending_request m id).0
  step m (responds now id r) = (respond_to_request m now id r).0

  unfoldable pub run : MemoryManager → List Call → MemoryManager
  run m [] = m
  run m (c ∷ cs) = run (step m c) cs

-- What holds of the manager after any calls: its sessions are within their bounds, no request is
-- pending twice, and the configuration is the given one.
pub record CallsInv (config : SessionMemoryConfig) (m : MemoryManager) : Type 0 where
  pub sessions : ManagerInv m
  pub pending : Distinct m.pending
  pub config_kept : m.config ≡ config

store_response-Inv :
    (m : MemoryManager) (now : ℕ) (req : Request) (r : Response)
    → 1 ≤ m.config.max_patterns
    → ManagerInv m
    → ManagerInv (store_response m now req r)
store_response-Inv m now req r pos v =
    elim (Bool-cases (is_session r.scope && not (is_empty r.pattern))) [
      | inl keeps ↦ rw keeps (
          store_decision-Inv m now req.session_id req.workspace_id r.pattern r.decision pos
            (λ e. ground (arith, keeps)) v)
      | inr skips ↦ rw skips v
    ]

-- What a method leaves alone.
abbrev Kept : MemoryManager → MemoryManager → Type 0
Kept m m' = (m'.pending ≡ m.pending) × (m'.config ≡ m.config)

check_memory-Kept :
    (glob : Text → Text → Bool) (m : MemoryManager) (now : ℕ) (id : String) (tool : Text)
    (input : ToolInput)
    → Kept m (check_memory glob m now id tool input).0
unfolding check_memory
check_memory-Kept glob m now id tool input = ground arith

store_response-Kept :
    (m : MemoryManager) (now : ℕ) (req : Request) (r : Response)
    → Kept m (store_response m now req r)
unfolding store_decision
store_response-Kept m now req r = ground arith

module _ (config : SessionMemoryConfig) (m : MemoryManager) (v : CallsInv config m) where
  Kept-Inv : (m' : MemoryManager) → ManagerInv m' → Kept m m' → CallsInv config m'
  Kept-Inv m' s k = record {
    sessions = s;
    pending = subst Distinct (sym k.0) v.pending;
    config_kept = k.1 ∙ v.config_kept;
  }

  respond_to_request-Inv :
      (now : ℕ) (id : String) (r : Response)
      → 1 ≤ config.max_patterns
      → CallsInv config (respond_to_request m now id r).0
  unfolding respond_to_request
  respond_to_request-Inv now id r pos = elim (Option-cases (lookup id m.pending)) [
    | inl missing ↦ rw (missing, respond_to_request) v
    | inr (req, found) ↦
        let taken = record m { pending = erase id m.pending } in
        let (p, c) = store_response-Kept taken now req r in
        let s : ManagerInv (store_response taken now req r) =
          store_response-Inv taken now req r (rw v.config_kept pos)
            (record { distinct = v.sessions.distinct; each = v.sessions.each }) in
        rw (found, respond_to_request)
          (record {
            sessions = record { distinct = s.distinct; each = s.each };
            pending = subst Distinct (sym p) (erase-Distinct id m.pending v.pending);
            config_kept = c ∙ v.config_kept;
          })
  ]

  remove_pending_request-Inv : (id : String) → CallsInv config (remove_pending_request m id)
  unfolding remove_pending_request
  remove_pending_request-Inv id = elim (Option-cases (lookup id m.pending)) [
    | inl missing ↦ rw (missing, remove_pending_request) v
    | inr (req, found) ↦
        rw (found, remove_pending_request)
          (record {
            sessions = record { distinct = v.sessions.distinct; each = v.sessions.each };
            pending = erase-Distinct id m.pending v.pending;
            config_kept = v.config_kept;
          })
  ]

step-Inv :
    (glob : Text → Text → Bool) (config : SessionMemoryConfig) (m : MemoryManager) (c : Call)
    → 1 ≤ config.max_patterns
    → IsNamed c
    → CallsInv config m
    → CallsInv config (step glob m c)
unfolding step cleanup get_or_create_session store_decision clear_session clear_workspace
    add_pending_request get_and_remove_pending_request
step-Inv glob config m (cleans now) pos h v =
    Kept-Inv config m v _ (cleanup-Inv m now v.sessions) (refl, refl)
step-Inv glob config m (gets now id ws) pos h v =
    Kept-Inv config m v _ (get_or_create_session-Inv m now id ws v.sessions) (refl, refl)
step-Inv glob config m (checks now id tool input) pos h v =
    Kept-Inv config m v _ (check_memory-Inv glob m now id tool input v.sessions)
      (check_memory-Kept glob m now id tool input)
step-Inv glob config m (stores now id ws pattern d) pos h v =
    Kept-Inv config m v _
      (store_decision-Inv m now id ws pattern d (rw v.config_kept pos) h v.sessions) (refl, refl)
step-Inv glob config m (clears_session id) pos h v =
    Kept-Inv config m v _ (clear_session-Inv m id v.sessions) (refl, refl)
step-Inv glob config m (clears_workspace id) pos h v =
    Kept-Inv config m v _ (clear_workspace-Inv m id v.sessions) (refl, refl)
step-Inv glob config m (adds req) pos h v = record {
  sessions = record { distinct = v.sessions.distinct; each = v.sessions.each };
  pending = insert-Distinct req.tool_use_id req m.pending v.pending;
  config_kept = v.config_kept;
}
step-Inv glob config m (removes id) pos h v = remove_pending_request-Inv config m v id
step-Inv glob config m (takes id) pos h v = record {
  sessions = record { distinct = v.sessions.distinct; each = v.sessions.each };
  pending = erase-Distinct id m.pending v.pending;
  config_kept = v.config_kept;
}
step-Inv glob config m (responds now id r) pos h v = respond_to_request-Inv config m v now id r pos

run-Inv :
    (glob : Text → Text → Bool) (config : SessionMemoryConfig) (m : MemoryManager) (cs : List Call)
    → 1 ≤ config.max_patterns
    → All IsNamed cs
    → CallsInv config m
    → CallsInv config (run glob m cs)
unfolding run
run-Inv glob config m [] pos h v = v
run-Inv glob config m (c ∷ cs) pos h v =
    run-Inv glob config (step glob m c) cs pos h.1 (step-Inv glob config m c pos h.0 v)

-- From a new manager, whatever is called in whatever order: no session holds more than
-- max_patterns decisions, all of them under distinct patterns that are not empty, and no session
-- and no pending request stands twice. It needs a limit of at least 1, and that decisions are
-- stored under patterns that are not empty.
pub run-new_memory_manager-Inv :
    (glob : Text → Text → Bool) (config : SessionMemoryConfig) (cs : List Call)
    → 1 ≤ config.max_patterns
    → All IsNamed cs
    → CallsInv config (run glob (new_memory_manager config) cs)
unfolding new_memory_manager
run-new_memory_manager-Inv glob config cs pos h =
    run-Inv glob config _ cs pos h
      (record { sessions = record { distinct = tt; each = tt }; pending = tt; config_kept = refl })
