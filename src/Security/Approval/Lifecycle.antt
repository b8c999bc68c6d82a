-- ===== src/Security/Approval/Lifecycle.antt =====
-- From a pairing request to its approval or rejection (pairing_approval.go).
use cdev.Base.{
  String, ℕ, ◌<◌, ◌≡◌, ◌≢◌, ◌↔◌, subst, none, some, arith, string_eq, inl, inr, Option-cases, ltb,
}
use cdev.Base.Map.{lookup, kept, lookup-insert_self, lookup-erase_self, lookup-retain}
use cdev.Security.Approval.{
  approved, rejected, PairingApprovalRequest, PairingApprovalManager, not_found, ok, err,
  cleanup_expired, status, approve, reject,
}
use cdev.Security.Approval.Cleanup.{ApprovalInv}
use cdev.Security.Approval.Steps.{approve-Inv, lookup-cleanup_none}

-- What a status says of the maps.
module _ (m : PairingApprovalManager) (v : ApprovalInv m) where
  cleanup-approved :
      (now : ℕ) (n : String)
      → lookup n (cleanup_expired m now).approved_nonces
        ≡ kept (λ _ t. ltb now t) n (lookup n m.approved_nonces)
  unfolding cleanup_expired
  cleanup-approved now n = lookup-retain _ n m.approved_nonces v.approvals

  cleanup-rejected :
      (now : ℕ) (n : String)
      → lookup n (cleanup_expired m now).rejected_nonces
        ≡ kept (λ _ t. ltb now t) n (lookup n m.rejected_nonces)
  unfolding cleanup_expired
  cleanup-rejected now n = lookup-retain _ n m.rejected_nonces v.rejections

-- With agreeing maps, the status of a nonce is "approved" exactly if the nonce is not empty and an
-- approval of it is recorded that has not expired.
pub status-approved :
    (m : PairingApprovalManager) (now : ℕ) (n : String)
    → ApprovalInv m
    → ((status m now n).1 ≡ approved)
      ↔ ((n ≢ "") × ((t : ℕ) × (lookup n m.approved_nonces ≡ some t) × (now < t)))
unfolding status
status-approved m now n v = elim (Option-cases (lookup n m.approved_nonces)) [
  | inl never ↦ (
    λ s. absurd (ground (arith, cleanup-approved m v now n)),
    λ x. absurd (ground (arith, x.1.1)),
  )
  | inr (t, at) ↦ (
    λ s. (λ blank. ground arith, (t, at, ground (arith, cleanup-approved m v now n))),
    λ x. ground (arith, x.0, x.1.1, x.1.2, cleanup-approved m v now n),
  )
]

approve-parts :
    (m m' : PairingApprovalManager) (now : ℕ) (id : String) (req : PairingApprovalRequest)
    → approve m now id ≡ (m', ok req)
    → (lookup req.nonce m'.approved_nonces ≡ some req.expires_at)
      × (lookup id m'.pending_by_id ≡ none)
unfolding approve
approve-parts m m' now id req h =
    let c = cleanup_expired m now in
    ground (
      arith,
      lookup-insert_self req.nonce req.expires_at c.approved_nonces,
      lookup-erase_self id c.pending_by_id,
    )

-- A request that is not pending can be neither approved nor rejected.
settled_once :
    (m : PairingApprovalManager) (now : ℕ) (id : String)
    → ApprovalInv m
    → lookup id m.pending_by_id ≡ none
    → ((approve m now id).1 ≡ err not_found) × ((reject m now id).1 ≡ err not_found)
unfolding approve reject
settled_once m now id v h = ground (arith, lookup-cleanup_none m now id v h)

-- After a request is approved, the status of its nonce is "approved" exactly until the request's
-- expiry, and the request can be neither approved nor rejected again. It needs maps that agree
-- and a nonce that is not empty.
pub approve_lem :
    (m m' : PairingApprovalManager) (now later : ℕ) (id : String) (req : PairingApprovalRequest)
    → ApprovalInv m
    → req.nonce ≢ ""
    → approve m now id ≡ (m', ok req)
    → (((status m' later req.nonce).1 ≡ approved) ↔ (later < req.expires_at))
      × ((approve m' later id).1 ≡ err not_found)
      × ((reject m' later id).1 ≡ err not_found)
approve_lem m m' now later id req v named h =
    let (at, gone) = approve-parts m m' now id req h in
    let v' : ApprovalInv m' = subst (λ x. ApprovalInv x.0) h (approve-Inv m now id v).0 in
    let iff = status-approved m' later req.nonce v' in
    let (a, r) = settled_once m' later id v' gone in
    (
      (
        λ s. let (n, (t, at', lt)) = iff.0 s in ground (arith, at, at', lt),
        λ lt. iff.1 (named, (req.expires_at, at, lt)),
      ),
      a,
      r,
    )

reject-parts :
    (m m' : PairingApprovalManager) (now : ℕ) (id : String) (req : PairingApprovalRequest)
    → ApprovalInv m
    → reject m now id ≡ (m', ok req)
    → (lookup req.nonce m'.rejected_nonces ≡ some req.expires_at)
      × (lookup id m'.pending_by_id ≡ none)
      × (m'.approved_nonces ≡ (cleanup_expired m now).approved_nonces)
unfolding reject
reject-parts m m' now id req v h =
    let c = cleanup_expired m now in
    ground (
      arith,
      lookup-insert_self req.nonce req.expires_at c.rejected_nonces,
      lookup-erase_self id c.pending_by_id,
    )

-- After a request is rejected, the status of its nonce is "rejected" until the request's expiry,
-- and the request can no more be approved. It needs maps that agree, a nonce that is not empty
-- and has no earlier approval.
pub reject_lem :
    (m m' : PairingApprovalManager) (now later : ℕ) (id : String) (req : PairingApprovalRequest)
    → ApprovalInv m
    → req.nonce ≢ ""
    → later < req.expires_at
    → lookup req.nonce m.approved_nonces ≡ none
    → reject m now id ≡ (m', ok req)
    → ((status m' later req.nonce).1 ≡ rejected) × ((approve m' later id).1 ≡ err not_found)
unfolding status
reject_lem m m' now later id req v named lt clean h =
    let (at, gone, same) = reject-parts m m' now id req v h in
    let v' : ApprovalInv m' = subst (λ x. ApprovalInv x.0) h (approve-Inv m now id v).1 in
    let none0 : lookup req.nonce (cleanup_expired m now).approved_nonces ≡ none =
      ground (arith, cleanup-approved m v now req.nonce) in
    let none1 : lookup req.nonce m'.approved_nonces ≡ none = ground (arith, same, none0) in
    (
      ground (
        arith,
        named,
        at,
        lt,
        none1,
        cleanup-approved m' v' later req.nonce,
        cleanup-rejected m' v' later req.nonce,
      ),
      (settled_once m' later id v' gone).0,
    )
