-- ===== src/Permission/Service/Flow.antt =====
-- What a permission request comes to: who answers it, and how often (permission.go).
use cdev.Base.{
  String, ℕ, ◌≡◌, ◌≢◌, refl, sym, ap, ◌∙◌, Bool, false, [], Option, none, some, arith,
  string_discrete, string_eq, nat_eq,
}
use cdev.Base.Map.{lookup, erase, lookup-erase_self, erase_fresh}
use cdev.Base.Text.{Text, text_eq}
use cdev.Permission.Types.{Decision, allow, session, ToolInput, Request, Response, StoredDecision}
use cdev.Permission.Pattern.{generate_pattern}
use cdev.Permission.Pattern.Named.{generate_pattern-ne-nil}
use cdev.Permission.Memory.{MemoryManager, check_memory, store_decision}
use cdev.Permission.Memory.Check.{check-store}
use cdev.Permission.Pending.{get_and_remove_pending_request}
use cdev.Permission.Service.{
  RequestParams, answered, remembered, begin_request, RespondParams, decision_of, scope_of,
  response_to, respond, store_if_session, send_response,
}

-- If permission/request answers without a prompt and the answer is "allow", CheckMemory found a
-- decision that allows, and the answer is that decision.
pub begin_allow :
    (glob : Text → Text → Bool) (resolver : Option (String → Option String)) (m : MemoryManager)
    (now : ℕ) (p : RequestParams) (ch : ℕ) (publisher : Option ℕ) (r : Response)
    → (begin_request glob resolver m now p ch publisher).1 ≡ answered r
    → r.decision ≡ allow
    → (d : StoredDecision) × ((check_memory glob m now p.session_id p.tool_name p.tool_input).1
        ≡ some d)
      × (d.decision ≡ allow)
      × (r ≡ remembered d)
unfolding begin_request
begin_allow glob resolver m now p ch publisher r h a = ground arith

-- What CheckMemory answers depends on the sessions alone.
check_memory-sessions :
    (glob : Text → Text → Bool) (m m' : MemoryManager) (now : ℕ) (id : String) (tool : Text)
    (input : ToolInput)
    → m.sessions ≡ m'.sessions
    → (check_memory glob m now id tool input).1 ≡ (check_memory glob m' now id tool input).1
unfolding check_memory
check_memory-sessions glob m m' now id tool input e = ground arith

blank_decision : decision_of "" ≡ none
unfolding string_discrete
blank_decision = refl

-- A decision that is accepted is not the empty string.
decision-ne-blank : (s : String) (d : Decision) → decision_of s ≡ some d → s ≢ ""
decision-ne-blank s d h e = ground (arith, ap decision_of e, blank_decision)

-- A valid response to a pending request: the request is gone, the decision is stored if its scope
-- is the session, and the response is sent.
pub respond-known :
    (m : MemoryManager) (now : ℕ) (a : RespondParams) (req : Request) (d : Decision)
    → lookup a.tool_use_id m.pending ≡ some req
    → a.tool_use_id ≢ ""
    → decision_of a.decision ≡ some d
    → let r = response_to req d (scope_of a.scope) in
      let m' = record m { pending = erase a.tool_use_id m.pending } in
      respond m now a
      ≡ (send_response (store_if_session m' now req r (scope_of a.scope)) req r, none)
unfolding respond get_and_remove_pending_request
respond-known m now a req d found named known = ground (arith, decision-ne-blank a.decision d known)

session_scope : scope_of "session" ≡ session
unfolding string_discrete
session_scope = refl

store_session :
    (m : MemoryManager) (now : ℕ) (req : Request) (d : Decision)
    → store_if_session m now req (response_to req d session) session
      ≡ store_decision m now req.session_id req.workspace_id
          (generate_pattern req.tool_name req.tool_input)
          d
store_session m now req d = ground (arith, generate_pattern-ne-nil req.tool_name req.tool_input)

begin-recall :
    (glob : Text → Text → Bool) (resolver : Option (String → Option String)) (m : MemoryManager)
    (now : ℕ) (p : RequestParams) (ch : ℕ) (publisher : Option ℕ) (d : StoredDecision)
    → p.session_id ≢ ""
    → p.tool_name ≢ []
    → p.tool_use_id ≢ ""
    → (check_memory glob m now p.session_id p.tool_name p.tool_input).1 ≡ some d
    → (begin_request glob resolver m now p ch publisher).1 ≡ answered (remembered d)
unfolding begin_request
begin-recall glob resolver m now p ch publisher d s t u h = ground arith

respond-session :
    (m : MemoryManager) (now : ℕ) (a : RespondParams) (req : Request) (d : Decision)
    → lookup a.tool_use_id m.pending ≡ some req
    → a.tool_use_id ≢ ""
    → decision_of a.decision ≡ some d
    → a.scope ≡ "session"
    → (respond m now a).0.sessions
      ≡ (store_decision
          (record m { pending = erase a.tool_use_id m.pending })
          now
          req.session_id
          req.workspace_id
          (generate_pattern req.tool_name req.tool_input)
          d).sessions
respond-session m now a req d found named known sess =
    let m' = record m { pending = erase a.tool_use_id m.pending } in
    ap (λ x. x.0.sessions) (respond-known m now a req d found named known)
    ∙ ap (λ s. (store_if_session m' now req (response_to req d s) s).sessions)
        (ap scope_of sess ∙ session_scope)
    ∙ ap (λ x. x.sessions) (store_session m' now req d)

abbrev stored : RespondParams → Request → Decision → ℕ → StoredDecision
stored a req d now = record {
  pattern = generate_pattern req.tool_name req.tool_input;
  decision = d;
  created_at = now;
  usage_count = 2;
}

-- After Respond gives a valid decision with the scope "session" to a pending request whose tool
-- use id is not empty, a permission/request made in the state that this leaves, of the same
-- session, tool and input, with its required fields given, is answered without a prompt, at any
-- time, by that decision under the generated pattern.
pub begin-respond_session :
    (glob : Text → Text → Bool) (resolver : Option (String → Option String)) (m : MemoryManager)
    (now later : ℕ) (a : RespondParams) (req : Request) (d : Decision) (p : RequestParams) (ch : ℕ)
    (publisher : Option ℕ)
    → lookup a.tool_use_id m.pending ≡ some req
    → a.tool_use_id ≢ ""
    → decision_of a.decision ≡ some d
    → a.scope ≡ "session"
    → p.session_id ≡ req.session_id
    → p.tool_name ≡ req.tool_name
    → p.tool_input ≡ req.tool_input
    → p.session_id ≢ ""
    → p.tool_name ≢ []
    → p.tool_use_id ≢ ""
    → (begin_request glob resolver (respond m now a).0 later p ch publisher).1
      ≡ answered (record {
        decision = d;
        scope = session;
        pattern = generate_pattern req.tool_name req.tool_input;
        message = "";
        interrupt = false;
      })
begin-respond_session glob resolver m now later a req d p ch publisher found named known sess same_s
      same_t same_i s t u =
    let taken = record m { pending = erase a.tool_use_id m.pending } in
    let kept =
      store_decision taken now req.session_id req.workspace_id
        (generate_pattern req.tool_name req.tool_input) d in
    begin-recall glob resolver (respond m now a).0 later p ch publisher (stored a req d now) s t u (
      check_memory-sessions glob (respond m now a).0 kept later p.session_id p.tool_name
        p.tool_input (respond-session m now a req d found named known sess)
      ∙ rw (same_s, same_t, same_i)
          (check-store glob later req.tool_name req.tool_input taken now req.session_id
            req.workspace_id d))

respond-gone :
    (m : MemoryManager) (now : ℕ) (a : RespondParams)
    → (respond m now a).1 ≡ none
    → lookup a.tool_use_id (respond m now a).0.pending ≡ none
unfolding respond get_and_remove_pending_request store_decision
respond-gone m now a h = ground (arith, lookup-erase_self a.tool_use_id m.pending)

respond-unknown :
    (m : MemoryManager) (now : ℕ) (b : RespondParams)
    → lookup b.tool_use_id m.pending ≡ none
    → ((respond m now b).0 ≡ m) × ((respond m now b).1 ≢ none)
unfolding respond get_and_remove_pending_request
respond-unknown m now b h = ground (arith, erase_fresh b.tool_use_id m.pending)

-- After Respond succeeds, a next Respond for the same tool use id is an error, whatever it
-- carries, and changes nothing.
pub respond_twice :
    (m m' : MemoryManager) (now later : ℕ) (a b : RespondParams)
    → respond m now a ≡ (m', none)
    → b.tool_use_id ≡ a.tool_use_id
    → ((respond m' later b).0 ≡ m') × ((respond m' later b).1 ≢ none)
respond_twice m m' now later a b h e = respond-unknown m' later b (
    rw e
      (ap (λ x. lookup a.tool_use_id x.0.pending) (sym h) ∙ respond-gone m now a (ap (λ x. x.1) h)))
