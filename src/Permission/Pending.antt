-- ===== src/Permission/Pending.antt =====
-- internal/permission/memory.go: the requests that wait for the mobile app's answer. A request
-- points to a channel with a buffer of one response; the buffers are part of the manager's state.
use cdev.Base.{
  is_empty, String, ℕ, Bool, true, false, ◌&&◌, not, List, [], ◌∷◌, Option, none, some,
  if◌then◌else◌, string_eq, nat_eq,
}
use cdev.Base.Map.{Map, lookup, insert, erase}
use cdev.Base.Text.{text_eq}
use cdev.Permission.Types.{Scope, session, Request, Response}
use cdev.Permission.Memory.{MemoryManager, store_decision}

-- AddPendingRequest
unfoldable pub add_pending_request : MemoryManager → Request → MemoryManager
add_pending_request m req = record m { pending = insert req.tool_use_id req m.pending }

-- GetPendingRequest
unfoldable pub get_pending_request : MemoryManager → String → Option Request
get_pending_request m tool_use_id = lookup tool_use_id m.pending

-- case <-ch, or the default if the buffer is empty
abbrev pub receive : ℕ → Map ℕ (List Response) → Map ℕ (List Response)
receive ch chans = elim (lookup ch chans) [
  | none ↦ chans
  | some [] ↦ chans
  | some (r ∷ rest) ↦ insert ch rest chans
]

-- RemovePendingRequest
unfoldable pub remove_pending_request : MemoryManager → String → MemoryManager
remove_pending_request m tool_use_id = elim (lookup tool_use_id m.pending) [
  | none ↦ m
  | some req ↦ record m {
    pending = erase tool_use_id m.pending;
    channels = receive req.response_chan m.channels;
  }
]

-- case ch <- r: on a channel of capacity 1 it is ready if the buffer is empty
abbrev pub send : ℕ → Response → Map ℕ (List Response) → Map ℕ (List Response) × Bool
send ch r chans = elim (lookup ch chans) [
  | none ↦ (chans, false)
  | some [] ↦ (insert ch (r ∷ []) chans, true)
  | some (x ∷ rest) ↦ (chans, false)
]

abbrev pub is_session : Scope → Bool
is_session session = true
is_session _ = false

abbrev pub store_response : MemoryManager → ℕ → Request → Response → MemoryManager
store_response m now req r =
    if is_session r.scope && not (is_empty r.pattern)
    then store_decision m now req.session_id req.workspace_id r.pattern r.decision
    else m

abbrev pub deliver : MemoryManager → Request → Response → MemoryManager × Bool
deliver m req r =
    let (chans, sent) = send req.response_chan r m.channels in (record m { channels = chans }, sent)

-- RespondToRequest
unfoldable pub respond_to_request : MemoryManager → ℕ → String → Response → MemoryManager × Bool
respond_to_request m now tool_use_id r = elim (lookup tool_use_id m.pending) [
  | none ↦ (m, false)
  | some req ↦
      deliver (store_response (record m { pending = erase tool_use_id m.pending }) now req r) req r
]

-- GetAndRemovePendingRequest
unfoldable pub get_and_remove_pending_request :
    MemoryManager → String → MemoryManager × Option Request
get_and_remove_pending_request m tool_use_id =
    (record m { pending = erase tool_use_id m.pending }, lookup tool_use_id m.pending)

-- ListPendingRequests
unfoldable pub list_pending_requests : MemoryManager → List Request
list_pending_requests m = values m.pending
  where
    values : Map String Request → List Request
    values [] = []
    values ((_, req) ∷ rest) = req ∷ values rest
