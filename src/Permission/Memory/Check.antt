-- ===== src/Permission/Memory/Check.antt =====
-- CheckMemory answers from the stored patterns, and misses none that matches (memory.go).
use cdev.Base.{
  String, ℕ, ◌≡◌, ◌⊎◌, refl, ◌∙◌, Bool, true, false, [], ◌∷◌, Option, none, some, arith, inl, inr,
  Bool-cases, Option-cases, string_eq,
}
use cdev.Base.Map.{Map, lookup, insert, lookup-insert_self}
use cdev.Base.Text.{Text, text_eq}
use cdev.Permission.Types.{Decision, ToolInput, StoredDecision, SessionMemory}
use cdev.Permission.Pattern.{generate_pattern, match_pattern}
use cdev.Permission.Memory.{
  MemoryManager, find_entry, used, answer_with, find_decision, check_session, check_memory,
  store_decision, remember,
}

find_entry_sound :
    (p : Text → Bool) (m : Map Text StoredDecision) (k : Text) (d : StoredDecision)
    → find_entry p m ≡ some (k, d)
    → (p k ≡ true) × (lookup k m ≡ some d)
unfolding find_entry lookup
find_entry_sound p [] k d h = ground arith
find_entry_sound p ((j, e) ∷ m) k d h = elim (Bool-cases (p j)) [
  | inl fits ↦ ground arith
  | inr not_fits ↦ ground (arith, find_entry_sound p m k d)
]

find_entry_complete :
    (p : Text → Bool) (m : Map Text StoredDecision) (k : Text) (d : StoredDecision)
    → find_entry p m ≡ none
    → lookup k m ≡ some d
    → p k ≡ false
unfolding find_entry lookup
find_entry_complete p [] k d h g = ground arith
find_entry_complete p ((j, e) ∷ m) k d h g = ground (arith, find_entry_complete p m k d)

module _ (glob : Text → Text → Bool) (now : ℕ) (tool : Text) (input : ToolInput) where
  -- The pattern k is the one that the request generates, or it matches the request.
  abbrev pub Answers : Text → Type 0
  Answers k = (k ≡ generate_pattern tool input) ⊎ (match_pattern glob k tool input ≡ true)

  abbrev pub after_answer : SessionMemory → Text → StoredDecision → SessionMemory
  after_answer mem k s = record mem {
    decisions = insert k (used s) mem.decisions;
    last_access = now;
  }

  find_decision_sound :
      (mem : SessionMemory) (k : Text) (s : StoredDecision)
      → find_decision
          (λ p. match_pattern glob p tool input)
          (generate_pattern tool input)
          (lookup (generate_pattern tool input) mem.decisions)
          mem.decisions
        ≡ some (k, s)
      → (lookup k mem.decisions ≡ some s) × Answers k
  find_decision_sound mem k s h =
      elim (Option-cases (lookup (generate_pattern tool input) mem.decisions)) [
        | inl missing ↦
            let (fits, at) =
              find_entry_sound (λ p. match_pattern glob p tool input) mem.decisions k s
                (rw missing at h) in
            (at, inr fits)
        | inr (d, found) ↦ (ground arith, inl (ground arith))
      ]

  -- What an answer of one session is.
  abbrev pub Answered : SessionMemory → SessionMemory → StoredDecision → Type 0
  Answered mem mem' d =
      (k : Text) × (s : StoredDecision) × (lookup k mem.decisions ≡ some s)
      × Answers k
      × (d ≡ used s)
      × (mem' ≡ after_answer mem k s)

  from_answer :
      (mem mem' : SessionMemory) (d : StoredDecision) (o : Option (Text × StoredDecision))
      → find_decision
          (λ p. match_pattern glob p tool input)
          (generate_pattern tool input)
          (lookup (generate_pattern tool input) mem.decisions)
          mem.decisions
        ≡ o
      → answer_with (record mem { last_access = now }) o ≡ (mem', some d)
      → Answered mem mem' d
  from_answer mem mem' d none e h = absurd (cc)
  from_answer mem mem' d (some (k, s)) e h =
      let (at, fits) = find_decision_sound mem k s e in (k, s, at, fits, ground arith, ground arith)

  none-answer :
      (mem : SessionMemory) (o : Option (Text × StoredDecision))
      → (answer_with (record mem { last_access = now }) o).1 ≡ none
      → (answer_with (record mem { last_access = now }) o).0 ≡ record mem { last_access = now }
  none-answer mem none h = refl
  none-answer mem (some (k, s)) h = absurd (cc)

  check_session-none :
      (mem : SessionMemory)
      → (check_session glob mem now tool input).1 ≡ none
      → (check_session glob mem now tool input).0 ≡ record mem { last_access = now }
  unfolding check_session
  check_session-none mem h = none-answer mem _ h

  check_session_sound :
      (mem mem' : SessionMemory) (d : StoredDecision)
      → check_session glob mem now tool input ≡ (mem', some d)
      → Answered mem mem' d
  unfolding check_session
  check_session_sound mem mem' d h = from_answer mem mem' d _ refl h

  -- A check of a session uses a stored decision, or notes the time only.
  pub check_session_cases :
      (mem : SessionMemory)
      → ((check_session glob mem now tool input).0 ≡ record mem { last_access = now })
        ⊎ ((k : Text) × (s : StoredDecision) × (lookup k mem.decisions ≡ some s)
            × ((check_session glob mem now tool input).0 ≡ after_answer mem k s))
  check_session_cases mem = elim (Option-cases (check_session glob mem now tool input).1) [
    | inl unanswered ↦ inl (check_session-none mem unanswered)
    | inr (d, answered) ↦
        let (k, s, at, _, _, e) =
          check_session_sound mem _ d
            (λ i. ((check_session glob mem now tool input).0, answered i)) in
        inr (k, s, at, e)
  ]

  -- An answer of CheckMemory is a decision of that session, stored under a pattern that the
  -- request generates or matches, with its use counted; the session remembers the use and the
  -- time, and no other session changes.
  pub check_memory_sound :
      (m m' : MemoryManager) (session_id : String) (d : StoredDecision)
      → check_memory glob m now session_id tool input ≡ (m', some d)
      → (mem : SessionMemory) × (mem' : SessionMemory) × (lookup session_id m.sessions ≡ some mem)
        × Answered mem mem' d
        × (m' ≡ record m { sessions = insert session_id mem' m.sessions })
  unfolding check_memory
  check_memory_sound m m' session_id d h = elim (Option-cases (lookup session_id m.sessions)) [
    | inl missing ↦ absurd (ground arith)
    | inr (mem, found) ↦ (
      mem,
      (check_session glob mem now tool input).0,
      found,
      check_session_sound mem _ d (ground arith),
      ground arith,
    )
  ]

  find_decision_complete :
      (mem : SessionMemory) (k : Text) (s : StoredDecision)
      → lookup k mem.decisions ≡ some s
      → Answers k
      → (o : Option (Text × StoredDecision))
      → find_decision
          (λ p. match_pattern glob p tool input)
          (generate_pattern tool input)
          (lookup (generate_pattern tool input) mem.decisions)
          mem.decisions
        ≡ o
      → (x : Text × StoredDecision) × (o ≡ some x)
  find_decision_complete mem k s at fits (some x) e = (x, refl)
  find_decision_complete mem k s at (inl exact) none e = absurd (ground (arith, at, exact))
  find_decision_complete mem k s at (inr fits) none e =
      elim (Option-cases (lookup (generate_pattern tool input) mem.decisions)) [
        | inl missing ↦ absurd (
            ground (
              arith,
              find_entry_complete (λ p. match_pattern glob p tool input) mem.decisions k s
                  (rw missing at e) at,
            ))
        | inr (d, found) ↦ absurd (ground (arith, found))
      ]

  -- A session that holds a decision, under a pattern that the request generates or that matches
  -- it, answers the request.
  pub check_memory_complete :
      (m : MemoryManager) (session_id : String) (mem : SessionMemory) (k : Text)
      (s : StoredDecision)
      → lookup session_id m.sessions ≡ some mem
      → lookup k mem.decisions ≡ some s
      → Answers k
      → (d : StoredDecision) × ((check_memory glob m now session_id tool input).1 ≡ some d)
  unfolding check_memory check_session
  check_memory_complete m session_id mem k s found at fits =
      let ((p, d), e) = find_decision_complete mem k s at fits _ refl in
      (used d, rw (found, check_memory) (rw (e, check_session)))

  check_memory-found :
      (m : MemoryManager) (session_id : String) (mem : SessionMemory)
      → lookup session_id m.sessions ≡ some mem
      → (check_memory glob m now session_id tool input).1
        ≡ (check_session glob mem now tool input).1
  unfolding check_memory
  check_memory-found m session_id mem found = rw (found, check_memory)

  check_session-exact :
      (mem : SessionMemory) (d : StoredDecision)
      → lookup (generate_pattern tool input) mem.decisions ≡ some d
      → (check_session glob mem now tool input).1 ≡ some (used d)
  unfolding check_session
  check_session-exact mem d found = rw (found, check_session)

  -- After a decision is stored under the pattern of a request, the same request is answered by
  -- it, whatever else the session holds.
  pub check-store :
      (m : MemoryManager) (stored_at : ℕ) (session_id workspace_id : String) (decision : Decision)
      → (check_memory glob
          (store_decision m stored_at session_id workspace_id
            (generate_pattern tool input)
            decision)
          now
          session_id
          tool
          input).1
        ≡ some (record {
          pattern = generate_pattern tool input;
          decision = decision;
          created_at = stored_at;
          usage_count = 2;
        })
  unfolding store_decision remember
  check-store m stored_at session_id workspace_id decision =
      check_memory-found _ session_id _ (lookup-insert_self session_id _ m.sessions)
      ∙ check_session-exact _ _ (lookup-insert_self (generate_pattern tool input) _ _)
