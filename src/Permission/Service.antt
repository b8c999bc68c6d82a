-- ===== src/Permission/Service.antt =====
-- internal/rpc/handler/methods/permission.go: the handlers permission/request and
-- permission/respond. `Request` blocks in a `select`: it is two steps here, `begin_request` up to
-- the wait, and `end_request` for the case of the `select` that is taken. The JSON decoding of the
-- parameters and the published events are left out; the publisher's subscriber count is given.
pub mod Flow
pub mod Deliver
use cdev.Base.{
  is_empty, String, ℕ, Bool, true, false, ◌&&◌, ◌||◌, not, List, [], ◌∷◌, Option, none, some, leb,
  if◌then◌else◌, test, string_discrete, string_eq, nat_eq,
}
use cdev.Base.Map.{Map, lookup, insert}
use cdev.Base.Text.{Text}
use cdev.Permission.Types.{
  Decision, allow, deny, Scope, once, session, unset, path, ToolInput, Request, Response,
  StoredDecision,
}
use cdev.Permission.Pattern.{generate_pattern}
use cdev.Permission.Memory.{MemoryManager, check_memory, store_decision}
use cdev.Permission.Pending.{
  add_pending_request, remove_pending_request, get_and_remove_pending_request, send, receive,
}

pub record RequestParams : Type 0 where
  pub session_id : String
  pub tool_name : Text
  pub tool_input : ToolInput
  pub tool_use_id : String
  pub cwd : String

-- ErrInvalidParams and ErrInternalError
pub data RpcError : Type 0 where
  invalid_params : String → RpcError
  internal_error : String → RpcError

-- What `Request` has done when it returns, or when it comes to the `select`.
pub data Begun : Type 0 where
  failed : RpcError → Begun
  answered : Response → Begun
  waiting : ℕ → Begun

abbrev is_blank : String → Bool
is_blank s = test (string_discrete s "")

abbrev pub plain_deny : String → Response
plain_deny message = record {
  decision = deny;
  scope = unset;
  pattern = [];
  message = message;
  interrupt = false;
}

abbrev pub remembered : StoredDecision → Response
remembered d = record {
  decision = d.decision;
  scope = session;
  pattern = d.pattern;
  message = "";
  interrupt = false;
}

-- The workspace of a directory: "" if there is no resolver, no directory or no workspace.
abbrev pub workspace_of : Option (String → Option String) → String → String
workspace_of none cwd = ""
workspace_of (some resolve) cwd =
    if is_blank cwd then "" else elim (resolve cwd) [ none ↦ "" | some id ↦ id ]

abbrev pub new_request : RequestParams → Option (String → Option String) → ℕ → ℕ → Request
new_request p resolver now ch = record {
  id = p.tool_use_id;
  session_id = p.session_id;
  workspace_id = workspace_of resolver p.cwd;
  tool_name = p.tool_name;
  tool_input = p.tool_input;
  tool_use_id = p.tool_use_id;
  created_at = now;
  response_chan = ch;
}

-- Without a mobile client the request is denied at once; without a publisher it waits.
abbrev publish : MemoryManager → String → ℕ → Option ℕ → MemoryManager × Begun
publish m tool_use_id ch none = (m, waiting ch)
publish m tool_use_id ch (some subscribers) =
    if leb subscribers 1
    then (remove_pending_request m tool_use_id, answered (plain_deny "no_clients"))
    else (m, waiting ch)

-- make(chan *permission.Response, 1) under a name that is not in use
abbrev pub open_channel : MemoryManager → ℕ → MemoryManager
open_channel m ch = record m { channels = insert ch [] m.channels }

abbrev pub ask :
    Option (String → Option String)
    → MemoryManager
    → ℕ
    → RequestParams
    → ℕ
    → Option ℕ
    → MemoryManager × Begun
ask resolver m now p ch publisher =
    publish (add_pending_request (open_channel m ch) (new_request p resolver now ch)) p.tool_use_id
      ch publisher

module _ (glob : Text → Text → Bool) (resolver : Option (String → Option String)) where
  abbrev recall :
      MemoryManager × Option StoredDecision
      → ℕ
      → RequestParams
      → ℕ
      → Option ℕ
      → MemoryManager × Begun
  recall (m, some d) now p ch publisher = (m, answered (remembered d))
  recall (m, none) now p ch publisher = ask resolver m now p ch publisher

  -- Request, up to its `select`
  unfoldable pub begin_request :
      MemoryManager → ℕ → RequestParams → ℕ → Option ℕ → MemoryManager × Begun
  begin_request m now p ch publisher =
      if is_blank p.session_id
      then (m, failed (invalid_params "session_id is required"))
      else if is_empty p.tool_name
      then (m, failed (invalid_params "tool_name is required"))
      else if is_blank p.tool_use_id
      then (m, failed (invalid_params "tool_use_id is required"))
      else recall (check_memory glob m now p.session_id p.tool_name p.tool_input) now p ch publisher

-- The cases of the `select`: a response, the timeout, a context that is done.
pub data Wake : Type 0 where
  received timed_out cancelled : Wake

abbrev take_response : MemoryManager → ℕ → Option (List Response) → MemoryManager × Option Response
take_response m ch none = (m, none)
take_response m ch (some []) = (m, none)
take_response m ch (some (r ∷ rest)) = (record m { channels = receive ch m.channels }, some r)

-- The rest of Request. With nothing in the channel the first case is not ready: none.
unfoldable pub end_request : MemoryManager → String → ℕ → Wake → MemoryManager × Option Response
end_request m tool_use_id ch received = take_response m ch (lookup ch m.channels)
end_request m tool_use_id ch timed_out =
    (remove_pending_request m tool_use_id, some (plain_deny "timeout"))
end_request m tool_use_id ch cancelled =
    (remove_pending_request m tool_use_id, some (plain_deny "cancelled"))

pub record RespondParams : Type 0 where
  pub tool_use_id : String
  pub decision : String
  pub scope : String

-- The decision that the handler accepts.
abbrev pub decision_of : String → Option Decision
decision_of s =
    if test (string_discrete s "allow")
    then some allow
    else if test (string_discrete s "deny")
    then some deny
    else none

abbrev pub scope_of : String → Scope
scope_of s = if test (string_discrete s "session") then session else once

abbrev pub response_to : Request → Decision → Scope → Response
response_to req d session = record {
  decision = d;
  scope = session;
  pattern = generate_pattern req.tool_name req.tool_input;
  message = "";
  interrupt = false;
}
response_to req d s = record {
  decision = d;
  scope = s;
  pattern = [];
  message = "";
  interrupt = false;
}

abbrev store_if_session : MemoryManager → ℕ → Request → Response → Scope → MemoryManager
store_if_session m now req r session =
    if is_empty r.pattern
    then m
    else store_decision m now req.session_id req.workspace_id r.pattern r.decision
store_if_session m now req r _ = m

abbrev send_response : MemoryManager → Request → Response → MemoryManager
send_response m req r = record m { channels = (send req.response_chan r m.channels).0 }

abbrev answer :
    MemoryManager × Option Request → ℕ → Decision → Scope → MemoryManager × Option RpcError
answer (m, none) now d s = (m, some (internal_error "Request not found or already responded"))
answer (m, some req) now d s =
    let r = response_to req d s in (send_response (store_if_session m now req r s) req r, none)

abbrev respond_with :
    MemoryManager → ℕ → String → Option Decision → Scope → MemoryManager × Option RpcError
respond_with m now tool_use_id none s =
    (m, some (invalid_params "decision must be 'allow' or 'deny'"))
respond_with m now tool_use_id (some d) s =
    answer (get_and_remove_pending_request m tool_use_id) now d s

-- Respond
unfoldable pub respond : MemoryManager → ℕ → RespondParams → MemoryManager × Option RpcError
respond m now p =
    if is_blank p.tool_use_id
    then (m, some (invalid_params "tool_use_id is required"))
    else if is_blank p.decision
    then (m, some (invalid_params "decision is required"))
    else respond_with m now p.tool_use_id (decision_of p.decision) (scope_of p.scope)
