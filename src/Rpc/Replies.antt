-- ===== src/Rpc/Replies.antt =====
-- What comes back for a message (internal/rpc/handler/dispatcher.go).
use mathlib.Core.List.{append-nil}
use cdev.Base.{
  ◌≡◌, refl, sym, ◌∙◌, ap, ◌⊎◌, Option, none, some, List, [], ◌∷◌, ◌++◌, if◌then◌else◌, map, inl,
  inr, Bool-cases,
}
use cdev.Base.Text.{Text}
use cdev.Rpc.{
  MessageId, Request, Response, RpcError, Outcome, returned, failed, version, parse_request,
  new_success_response, with_result,
}
use cdev.Rpc.Registry.{Registry, Handler, get}
use cdev.Rpc.Dispatch.{
  Json, Reply, nothing, single, batch, dispatch, dispatch_with, dispatch_parsed, answer,
  or_internal, dispatch_bytes, element, with_response, handle_elements, batch_reply, handle_batch,
  handle_raws, handle_message, starts_batch, one_reply,
}

-- A response to a request with this id: not both a result and an error.
abbrev pub Answers : Option MessageId → Response → Type 0
Answers id resp =
    (resp.id ≡ id) × (resp.jsonrpc ≡ version) × ((resp.result ≡ none) ⊎ (resp.error ≡ none))

-- What a request gets: nothing without an id, and else a response with its id.
abbrev pub Replied : Option MessageId → Option Response → Type 0
Replied none o = o ≡ none
Replied (some i) none = ⊥
Replied (some i) (some resp) = Answers (some i) resp

abbrev pub reply_ids : Reply → List (Option MessageId)
reply_ids nothing = []
reply_ids (single resp) = resp.id ∷ []
reply_ids (batch resps) = map (λ (r : Response). r.id) resps

abbrev one_id : Option Response → List (Option MessageId)
one_id none = []
one_id (some resp) = resp.id ∷ []

module _ {S V D : Type 0} (json : Json V) (registry : Registry S V D) where
  or_internal-Answers :
      (id : Option MessageId) (o : Option V)
      → Answers id (or_internal json registry id (new_success_response json.marshal id o))
  or_internal-Answers id none = (refl, refl, inl refl)
  or_internal-Answers id (some v) = on (json.marshal v)
    where
      on : (m : Outcome Text) → Answers id (or_internal json registry id (with_result id m))
      on (returned t) = (refl, refl, inr refl)
      on (failed e) = (refl, refl, inl refl)

  answer-Answers :
      (id : Option MessageId) (result : Option V) (err : Option RpcError)
      → Answers id (answer json registry id result err)
  answer-Answers id result (some err) = (refl, refl, inl refl)
  answer-Answers id result none = or_internal-Answers id result

  dispatch_with-Replied :
      (s : S) (req : Request) (h : Option (Handler S V))
      → Replied req.id (dispatch_with json registry s req h).1
  dispatch_with-Replied s req h = on req.id h
    where
      on :
          (id : Option MessageId) (h : Option (Handler S V))
          → Replied id (dispatch_with json registry s (record req { id = id }) h).1
      on none none = refl
      on none (some h) = refl
      on (some i) none = (refl, refl, inl refl)
      on (some i) (some h) =
          let (_, (result, err)) = h s req.params in answer-Answers (some i) result err

  -- A request without an id gets nothing back; one with an id gets one response, with its id and
  -- the version, and not with both a result and an error: also when the method is unknown, the
  -- handler returns an error, or its result has no JSON.
  pub dispatch-Replied : (s : S) (req : Request) → Replied req.id (dispatch json registry s req).1
  unfolding dispatch
  dispatch-Replied s req = dispatch_with-Replied s req (get registry req.method)

  -- The ids that come back for a parsed element.
  abbrev ids_of : Outcome Request → List (Option MessageId)
  ids_of (failed e) = none ∷ []
  ids_of (returned req) = elim req.id [ none ↦ [] | some i ↦ some i ∷ [] ]

  abbrev pub element_ids : List Text → List (Option MessageId)
  element_ids [] = []
  element_ids (raw ∷ raws) = ids_of (parse_request json.unmarshal_request raw) ++ element_ids raws

  abbrev raw_ids : Outcome (List Text) → List (Option MessageId)
  raw_ids (failed e) = none ∷ []
  raw_ids (returned []) = none ∷ []
  raw_ids (returned (raw ∷ raws)) = element_ids (raw ∷ raws)

  -- The ids that have to come back for a message: those of its requests that have one, in order,
  -- and a null id for what is not a request.
  unfoldable pub message_ids : Text → List (Option MessageId)
  message_ids bytes =
      if starts_batch bytes then raw_ids (json.unmarshal_batch bytes) else element_ids (bytes ∷ [])

  Replied-ids :
      (req : Request) (o : Option Response) → Replied req.id o → one_id o ≡ ids_of (returned req)
  Replied-ids req o = on req.id o
    where
      on :
          (id : Option MessageId) (o : Option Response)
          → Replied id o
          → one_id o ≡ ids_of (returned (record req { id = id }))
      on none none h = refl
      on none (some resp) h = absurd (cc)
      on (some i) none h = absurd h
      on (some i) (some resp) h = ap (λ (k : Option MessageId). k ∷ []) h.0

  element-ids : (s : S) (p : Outcome Request) → one_id (element json registry s p).1 ≡ ids_of p
  element-ids s (failed e) = refl
  element-ids s (returned req) = Replied-ids req _ (dispatch-Replied s req)

  with_response-ids :
      (o : Option Response) (rest : S × List Response)
      → map (λ (r : Response). r.id) (with_response o rest).1
        ≡ one_id o ++ map (λ (r : Response). r.id) rest.1
  with_response-ids none rest = refl
  with_response-ids (some resp) rest = refl

  handle_elements-ids :
      (s : S) (raws : List Text)
      → map (λ (r : Response). r.id) (handle_elements json registry s raws).1 ≡ element_ids raws
  unfolding handle_elements
  handle_elements-ids s [] = refl
  handle_elements-ids s (raw ∷ raws) =
      let p = parse_request json.unmarshal_request raw in
      let step = element json registry s p in
      let rest = handle_elements-ids step.0 raws in
      with_response-ids step.1 (handle_elements json registry step.0 raws)
      ∙ ap
          (λ (k : List (Option MessageId)).
            k ++ map (λ (r : Response). r.id) (handle_elements json registry step.0 raws).1)
          (element-ids s p)
      ∙ ap (λ k. ids_of p ++ k) rest

  batch_reply-ids :
      (r : S × List Response) → reply_ids (batch_reply r).1 ≡ map (λ (x : Response). x.id) r.1
  batch_reply-ids (s, []) = refl
  batch_reply-ids (s, resp ∷ resps) = refl

  handle_raws-ids :
      (s : S) (o : Outcome (List Text)) → reply_ids (handle_raws json registry s o).1 ≡ raw_ids o
  handle_raws-ids s (failed e) = refl
  handle_raws-ids s (returned []) = refl
  handle_raws-ids s (returned (raw ∷ raws)) =
      batch_reply-ids (handle_elements json registry s (raw ∷ raws))
      ∙ handle_elements-ids s (raw ∷ raws)

  one_reply-ids : (r : S × Option Response) → reply_ids (one_reply r).1 ≡ one_id r.1
  one_reply-ids (s, none) = refl
  one_reply-ids (s, some resp) = refl

  dispatch_parsed-ids :
      (s : S) (p : Outcome Request) → reply_ids (dispatch_parsed json registry s p).1 ≡ ids_of p
  dispatch_parsed-ids s (failed e) = refl
  dispatch_parsed-ids s (returned req) =
      one_reply-ids (dispatch json registry s req) ∙ element-ids s (returned req)

  dispatch_bytes-ids :
      (s : S) (bytes : Text)
      → reply_ids (dispatch_bytes json registry s bytes).1 ≡ element_ids (bytes ∷ [])
  unfolding dispatch_bytes
  dispatch_bytes-ids s bytes =
      dispatch_parsed-ids s (parse_request json.unmarshal_request bytes)
      ∙ sym (append-nil (ids_of (parse_request json.unmarshal_request bytes)))

  -- Every message is answered with the ids of its requests that have one, each once and in their
  -- order, with a null id for an element, a message or a batch that is not valid or is empty, and
  -- with nothing for notifications, whatever the handlers do.
  pub handle_message-ids :
      (s : S) (bytes : Text)
      → reply_ids (handle_message json registry s bytes).1 ≡ message_ids bytes
  unfolding handle_message handle_batch message_ids
  handle_message-ids s bytes = elim (Bool-cases (starts_batch bytes)) [
    | inl many ↦ rw many (handle_raws-ids s (json.unmarshal_batch bytes))
    | inr one ↦ rw one (dispatch_bytes-ids s bytes)
  ]
