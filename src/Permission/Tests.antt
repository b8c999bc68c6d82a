-- ===== src/Permission/Tests.antt =====
-- Runs of the permission bridge on concrete sessions and requests.
use cdev.Base.{
  ◌≡◌, ◌≢◌, refl, Bool, true, false, [], ◌∷◌, none, some, arith, inr, string_discrete, string_eq,
  nat_eq,
}
use cdev.Base.Map.{Map, lookup, insert, erase}
use cdev.Base.Text.{Text, codes, text_eq, list_discrete, same}
use cdev.Base.Text.Fields.{is_space}
use cdev.Permission.Types.{
  allow, deny, session, text, ToolInput, Request, StoredDecision, SessionMemory,
  SessionMemoryConfig,
}
use cdev.Permission.Pattern.{generate_pattern, match_pattern, one_of}
use cdev.Permission.Pattern.RoundTrip.{match_pattern-generate}
use cdev.Permission.Memory.{
  check_session, find_entry, store_decision, MemoryManager, new_memory_manager, check_memory,
  make_room,
}
use cdev.Permission.Memory.Check.{Answered, check_memory_sound, check_memory_complete, check-store}
use cdev.Permission.Memory.Oldest.{Evicted, make_room-full}
use cdev.Permission.Pending.{get_and_remove_pending_request}
use cdev.Permission.Service.{
  RequestParams, answered, remembered, new_request, begin_request, RespondParams, respond,
}
use cdev.Permission.Service.Flow.{begin-respond_session, respond_twice, begin_allow}
use cdev.Permission.Calls.{stores, checks, cleans, run, CallsInv, run-new_memory_manager-Inv}

abbrev no_glob : Text → Text → Bool
no_glob p s = false

abbrev small : SessionMemoryConfig
small = record { enabled = true; ttl = 100; max_patterns = 2 }

abbrev list_input : ToolInput
list_input = ("command", text (codes "git status")) ∷ []

abbrev params : RequestParams
params = record {
  session_id = "s1";
  tool_name = codes "Bash";
  tool_input = list_input;
  tool_use_id = "t1";
  cwd = "";
}

abbrev again : RequestParams
again = record params { tool_use_id = "t2" }

abbrev request_one : Request
request_one = new_request params none 5 7

abbrev waiting_one : MemoryManager
waiting_one = record {
  sessions = [];
  config = small;
  pending = ("t1", request_one) ∷ [];
  channels = (7, []) ∷ [];
}

abbrev for_session : RespondParams
for_session = record { tool_use_id = "t1"; decision = "allow"; scope = "session" }

begin-respond_session_example :
    (begin_request no_glob none (respond waiting_one 10 for_session).0 20 again 8 none).1
    ≡ answered (record {
      decision = allow;
      scope = session;
      pattern = generate_pattern (codes "Bash") list_input;
      message = "";
      interrupt = false;
    })
unfolding lookup string_discrete
begin-respond_session_example =
    begin-respond_session no_glob none waiting_one 10 20 for_session request_one allow again 8 none
      refl (λ e. cc) refl refl refl refl refl (λ e. cc) (λ e. cc) (λ e. cc)

respond_twice_example :
    ((respond (respond waiting_one 10 for_session).0 11 for_session).0
      ≡ (respond waiting_one 10 for_session).0)
    × ((respond (respond waiting_one 10 for_session).0 11 for_session).1 ≢ none)
unfolding respond string_discrete lookup erase get_and_remove_pending_request
respond_twice_example =
    respond_twice waiting_one (respond waiting_one 10 for_session).0 10 11 for_session for_session
      refl refl

abbrev allowed_before : StoredDecision
allowed_before = record {
  pattern = codes "Bash(*)";
  decision = allow;
  created_at = 1;
  usage_count = 1;
}

abbrev session_one : SessionMemory
session_one = record {
  session_id = "s1";
  workspace_id = "w1";
  decisions = (codes "Bash(*)", allowed_before) ∷ [];
  created_at = 1;
  last_access = 1;
}

abbrev knows_one : MemoryManager
knows_one = record (new_memory_manager small) { sessions = ("s1", session_one) ∷ [] }

match_pattern-generate_example :
    match_pattern no_glob (generate_pattern (codes "Bash") list_input) (codes "Bash") list_input
    ≡ true
unfolding one_of same list_discrete
match_pattern-generate_example =
    match_pattern-generate no_glob list_input (codes "Bash")
      (λ p file named. absurd (ground (arith, file)))

run-new_memory_manager-Inv_example : CallsInv small (
    run no_glob (new_memory_manager small) (
      stores 1 "s1" "w1" (codes "Bash(*)") allow
      ∷ checks 2 "s1" (codes "Bash") list_input
      ∷ cleans 500
      ∷ []))
run-new_memory_manager-Inv_example =
    run-new_memory_manager-Inv no_glob small
      (stores 1 "s1" "w1" (codes "Bash(*)") allow
        ∷ checks 2 "s1" (codes "Bash") list_input
        ∷ cleans 500
        ∷ [])
      (omega arith) ((λ e. cc), (tt, (tt, tt)))

abbrev two_decisions : Map Text StoredDecision
two_decisions =
    (codes "Bash(ls:*)", record allowed_before { created_at = 9 })
    ∷ (codes "Bash(*)", allowed_before)
    ∷ []

make_room-full_example :
    (k : Text) × Evicted two_decisions k
    × (k ≢ [])
    × (make_room 2 two_decisions ≡ erase k two_decisions)
unfolding lookup list_discrete
make_room-full_example =
    make_room-full 2 two_decisions (omega arith) (omega arith) ((λ e. cc), ((λ e. cc), tt))
      (refl, (refl, tt))

abbrev hook : RequestParams
hook = record params { tool_use_id = "t9" }

begin_allow_example :
    (d : StoredDecision) × ((check_memory no_glob knows_one 20 "s1" (codes "Bash") list_input).1
      ≡ some d)
    × (d.decision ≡ allow)
    × (remembered (record allowed_before { usage_count = 2 }) ≡ remembered d)
unfolding begin_request check_memory lookup string_discrete check_session list_discrete
    generate_pattern is_space find_entry match_pattern
begin_allow_example =
    begin_allow no_glob none knows_one 20 hook 7 none
      (remembered (record allowed_before { usage_count = 2 })) refl refl

check_memory_sound_example :
    (mem : SessionMemory) × (mem' : SessionMemory) × (lookup "s1" knows_one.sessions ≡ some mem)
    × Answered no_glob 20
        (codes "Bash")
        list_input
        mem
        mem'
        (record allowed_before { usage_count = 2 })
    × ((check_memory no_glob knows_one 20 "s1" (codes "Bash") list_input).0
        ≡ record knows_one { sessions = insert "s1" mem' knows_one.sessions })
unfolding check_memory lookup string_discrete check_session list_discrete generate_pattern is_space
    find_entry match_pattern
check_memory_sound_example =
    check_memory_sound no_glob 20 (codes "Bash") list_input knows_one
      (check_memory no_glob knows_one 20 "s1" (codes "Bash") list_input).0 "s1"
      (record allowed_before { usage_count = 2 }) refl

check_memory_complete_example :
    (d : StoredDecision) × ((check_memory no_glob knows_one 20 "s1" (codes "Bash") list_input).1
      ≡ some d)
unfolding lookup string_discrete list_discrete same match_pattern
check_memory_complete_example =
    check_memory_complete no_glob 20 (codes "Bash") list_input knows_one "s1" session_one
      (codes "Bash(*)") allowed_before refl refl (inr refl)

check-store_example :
    (check_memory no_glob
      (store_decision knows_one 5 "s1" "w1" (generate_pattern (codes "Bash") list_input) deny)
      20
      "s1"
      (codes "Bash")
      list_input).1
    ≡ some (record {
      pattern = generate_pattern (codes "Bash") list_input;
      decision = deny;
      created_at = 5;
      usage_count = 2;
    })
check-store_example = check-store no_glob 20 (codes "Bash") list_input knows_one 5 "s1" "w1" deny
