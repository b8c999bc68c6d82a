-- ===== src/Rpc/Dispatch.antt =====
-- internal/rpc/handler/dispatcher.go: from requests to responses. A reply is the message whose JSON
-- is sent back. The functions of encoding/json are parameters.
use cdev.Base.{Bool, false, Option, none, some, List, [], ◌∷◌, if◌then◌else◌, ◌==◌}
use cdev.Base.Text.{Text}
use cdev.Rpc.{
  Request, Response, RpcError, Outcome, returned, failed, is_notification, new_error_response,
  err_parse_error, err_invalid_request, err_method_not_found, err_internal_error, parse_request,
  new_success_response, MessageId,
}
use cdev.Rpc.Registry.{Registry, Handler, get}

pub data Reply : Type 0 where
  nothing : Reply
  single : Response → Reply
  batch : List Response → Reply

-- What json.Unmarshal and json.Marshal do with the messages.
pub record Json (V : Type 0) : Type 0 where
  pub unmarshal_request : Text → Outcome Request
  pub unmarshal_batch : Text → Outcome (List Text)
  pub marshal : V → Outcome Text

abbrev pub one_reply {ℓ} : {S : Type ℓ} → S × Option Response → S × Reply
one_reply (s, none) = (s, nothing)
one_reply (s, some resp) = (s, single resp)

abbrev pub with_response {ℓ} :
    {S : Type ℓ} → Option Response → S × List Response → S × List Response
with_response none rest = rest
with_response (some resp) (s, responses) = (s, resp ∷ responses)

abbrev pub batch_reply {ℓ} : {S : Type ℓ} → S × List Response → S × Reply
batch_reply (s, []) = (s, nothing)
batch_reply (s, resp ∷ responses) = (s, batch (resp ∷ responses))

abbrev pub starts_batch : Text → Bool
starts_batch [] = false
starts_batch (c ∷ s) = c == b'['

module _ {S V D : Type 0} (json : Json V) (registry : Registry S V D) where
  abbrev pub or_internal : Option MessageId → Outcome Response → Response
  or_internal id (returned resp) = resp
  or_internal id (failed e) =
      new_error_response id (err_internal_error "failed to marshal response")

  abbrev pub answer : Option MessageId → Option V → Option RpcError → Response
  answer id result (some err) = new_error_response id err
  answer id result none = or_internal id (new_success_response json.marshal id result)

  abbrev pub dispatch_with : S → Request → Option (Handler S V) → S × Option Response
  dispatch_with s req none =
      if is_notification req
      then (s, none)
      else (s, some (new_error_response req.id (err_method_not_found req.method)))
  dispatch_with s req (some handler) =
      let (s', (result, err)) = handler s req.params in
      if is_notification req then (s', none) else (s', some (answer req.id result err))

  -- Dispatch
  unfoldable pub dispatch : S → Request → S × Option Response
  dispatch s req = dispatch_with s req (get registry req.method)

  abbrev pub dispatch_parsed : S → Outcome Request → S × Reply
  dispatch_parsed s (failed e) = (s, single (new_error_response none (err_parse_error e)))
  dispatch_parsed s (returned req) = one_reply (dispatch s req)

  -- DispatchBytes
  unfoldable pub dispatch_bytes : S → Text → S × Reply
  dispatch_bytes s bytes = dispatch_parsed s (parse_request json.unmarshal_request bytes)

  -- BatchDispatch
  unfoldable pub batch_dispatch : S → List Request → S × List Response
  batch_dispatch s [] = (s, [])
  batch_dispatch s (req ∷ reqs) =
      let (s', resp) = dispatch s req in with_response resp (batch_dispatch s' reqs)

  -- One element of a batch.
  abbrev pub element : S → Outcome Request → S × Option Response
  element s (failed e) = (s, some (new_error_response none (err_parse_error e)))
  element s (returned req) = dispatch s req

  -- The loop of handleBatch.
  unfoldable pub handle_elements : S → List Text → S × List Response
  handle_elements s [] = (s, [])
  handle_elements s (raw ∷ raws) =
      let (s', resp) = element s (parse_request json.unmarshal_request raw) in
      with_response resp (handle_elements s' raws)

  abbrev pub handle_raws : S → Outcome (List Text) → S × Reply
  handle_raws s (failed e) =
      (s, single (new_error_response none (err_parse_error "Invalid batch request")))
  handle_raws s (returned []) =
      (s, single (new_error_response none (err_invalid_request "Empty batch")))
  handle_raws s (returned (raw ∷ raws)) = batch_reply (handle_elements s (raw ∷ raws))

  -- handleBatch
  unfoldable pub handle_batch : S → Text → S × Reply
  handle_batch s bytes = handle_raws s (json.unmarshal_batch bytes)

  -- HandleMessage
  unfoldable pub handle_message : S → Text → S × Reply
  handle_message s bytes =
      if starts_batch bytes then handle_batch s bytes else dispatch_bytes s bytes
