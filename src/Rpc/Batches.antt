-- ===== src/Rpc/Batches.antt =====
-- Batches against single messages (internal/rpc/handler/dispatcher.go).
use cdev.Base.{
  sym, Bool-cases, inl, inr, if◌then◌else◌, ◌≡◌, refl, ◌∙◌, ap, Option, none, some, List, [], ◌∷◌,
  ◌++◌,
}
use cdev.Base.Text.{Text}
use cdev.Rpc.{Request, Response, Outcome, returned, failed, parse_request}
use cdev.Rpc.Registry.{Registry}
use cdev.Rpc.Dispatch.{
  Json, Reply, nothing, single, batch, dispatch, dispatch_parsed, dispatch_bytes, element,
  starts_batch, handle_message, with_response, handle_elements, one_reply,
}

-- The responses that are sent back.
abbrev pub responses_of : Reply → List Response
responses_of nothing = []
responses_of (single resp) = resp ∷ []
responses_of (batch resps) = resps

module _ {S V D : Type 0} (json : Json V) (registry : Registry S V D) where
  -- An element by itself: as a message of its own; one that is an array, which would be a batch as
  -- a message, as a single request.
  abbrev pub alone : S → Text → S × Reply
  alone s raw =
      if starts_batch raw
      then dispatch_bytes json registry s raw
      else handle_message json registry s raw

  -- The elements by themselves, one after another.
  unfoldable pub one_by_one : S → List Text → S × List Response
  one_by_one s [] = (s, [])
  one_by_one s (raw ∷ raws) =
      let (s', reply) = alone s raw in
      let (s'', resps) = one_by_one s' raws in (s'', responses_of reply ++ resps)

  one_reply_step :
      (s : S) (p : Outcome Request) (rest : S → S × List Response)
      → with_response (element json registry s p).1 (rest (element json registry s p).0) ≡ (
        (rest (dispatch_parsed json registry s p).0).0,
        responses_of (dispatch_parsed json registry s p).1
            ++ (rest (dispatch_parsed json registry s p).0).1,
      )
  one_reply_step s (failed e) rest = refl
  one_reply_step s (returned req) rest = on (dispatch json registry s req)
    where
      on :
          (r : S × Option Response)
          → with_response r.1 (rest r.0)
            ≡ ((rest (one_reply r).0).0, responses_of (one_reply r).1 ++ (rest (one_reply r).0).1)
      on (s', none) = refl
      on (s', some resp) = refl

  alone-dispatch_bytes : (s : S) (raw : Text) → alone s raw ≡ dispatch_bytes json registry s raw
  unfolding handle_message
  alone-dispatch_bytes s raw = elim (Bool-cases (starts_batch raw)) [
    | inl e ↦ rw (e) refl
    | inr e ↦ rw (e) refl
  ]

  -- The loop over the elements of a batch does to the services, and answers, what its elements do
  -- one after another in the same order, each as a message of its own (HandleMessage); only an
  -- element that starts like a batch itself is handled as a single request (DispatchBytes).
  pub handle_elements-one_by_one :
      (s : S) (raws : List Text) → handle_elements json registry s raws ≡ one_by_one s raws
  unfolding handle_elements one_by_one dispatch_bytes
  handle_elements-one_by_one s [] = refl
  handle_elements-one_by_one s (raw ∷ raws) =
      let p = parse_request json.unmarshal_request raw in
      let step = element json registry s p in
      ap (with_response step.1) (handle_elements-one_by_one step.0 raws)
      ∙ one_reply_step s p (λ s'. one_by_one s' raws)
      ∙ ap
          (λ (r : S × Reply).
            let (s'', resps) = one_by_one r.0 raws in (s'', responses_of r.1 ++ resps))
          (sym (alone-dispatch_bytes s raw))
