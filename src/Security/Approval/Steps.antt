-- ===== src/Security/Approval/Steps.antt =====
-- Every method of PairingApprovalManager keeps its maps in agreement (pairing_approval.go).
use cdev.Base.{
  String, ℕ, ◌≡◌, refl, Option, none, some, arith, string_eq, inl, inr, Bool-cases, Option-cases,
  ltb,
}
use cdev.Base.Map.{
  lookup, lookup-insert, lookup-erase, lookup-retain, insert-Distinct, erase-Distinct,
}
use cdev.Security.Approval.{
  PairingApprovalRequest, PairingApprovalManager, cleanup_expired, expiry_of, add_request,
  request_for, ensure_for, ensure_pending, status, settle, approve, approve_in, reject, reject_in,
  clear_token_decision, is_blank, drop_pending, new_pairing_approval_manager, list_pending,
}
use cdev.Security.Approval.Cleanup.{ApprovalInv, cleanup_expired-Inv}

-- A nonce without a request, after an agreeing cleanup, is in neither map.
request_for-none :
    (m : PairingApprovalManager) (n : String)
    → ApprovalInv m
    → request_for m (lookup n m.pending_by_nonce) ≡ none
    → lookup n m.pending_by_nonce ≡ none
request_for-none m n v h = elim (Option-cases (lookup n m.pending_by_nonce)) [
  | inl missing ↦ missing
  | inr (id, there) ↦ absurd (ground (arith, v.back n id there))
]

-- The request that EnsurePending makes.
abbrev pub made : ℕ → String → String → String → ℕ → String → PairingApprovalRequest
made now n addr agent t rid = record {
  request_id = rid;
  remote_addr = addr;
  user_agent = agent;
  created_at = now;
  expires_at = expiry_of now t;
  nonce = n;
}

add_request-Inv :
    (m : PairingApprovalManager) (now : ℕ) (n addr agent : String) (t : ℕ) (rid : String)
    → lookup n m.pending_by_nonce ≡ none
    → lookup rid m.pending_by_id ≡ none
    → ApprovalInv m
    → ApprovalInv (add_request m now n addr agent t (some rid)).0
add_request-Inv m now n addr agent t rid new fresh v = record {
  ids = insert-Distinct rid _ m.pending_by_id v.ids;
  nonces = insert-Distinct n rid m.pending_by_nonce v.nonces;
  approvals = v.approvals;
  rejections = v.rejections;
  link = λ id req h. ground (
    arith,
    lookup-insert rid id (made now n addr agent t rid) m.pending_by_id,
    v.link id req,
    lookup-insert n req.nonce rid m.pending_by_nonce,
  );
  back = λ k id h. ground (
    arith,
    lookup-insert n k rid m.pending_by_nonce,
    v.back k id,
    lookup-insert rid id (made now n addr agent t rid) m.pending_by_id,
  );
}

settle-Inv :
    (m : PairingApprovalManager) (id : String) (req : PairingApprovalRequest)
    → lookup id m.pending_by_id ≡ some req
    → ApprovalInv m
    → ApprovalInv (settle m req id)
settle-Inv m id req at v = record {
  ids = erase-Distinct id m.pending_by_id v.ids;
  nonces = erase-Distinct req.nonce m.pending_by_nonce v.nonces;
  approvals = v.approvals;
  rejections = v.rejections;
  link = λ i r h. ground (
    arith,
    lookup-erase id i m.pending_by_id,
    v.link i r,
    v.link id req at,
    lookup-erase req.nonce r.nonce m.pending_by_nonce,
  );
  back = λ k i h. ground (
    arith,
    lookup-erase req.nonce k m.pending_by_nonce,
    v.back k i,
    v.link id req at,
    lookup-erase id i m.pending_by_id,
  );
}

-- The random id is not in use.
abbrev pub IsFresh : PairingApprovalManager → Option String → Type 0
IsFresh m none = Unit
IsFresh m (some rid) = lookup rid m.pending_by_id ≡ none

ensure_for-Inv :
    (m : PairingApprovalManager) (now : ℕ) (n addr agent : String) (t : ℕ) (id : Option String)
    → ApprovalInv m
    → IsFresh m id
    → (o : Option PairingApprovalRequest) → request_for m (lookup n m.pending_by_nonce) ≡ o
    → ApprovalInv (ensure_for m now n addr agent t id o).0
ensure_for-Inv m now n addr agent t id v f (some req) e = v
ensure_for-Inv m now n addr agent t none v f none e = rw (request_for-none m n v e) v
ensure_for-Inv m now n addr agent t (some rid) v f none e =
    rw (request_for-none m n v e)
      (add_request-Inv m now n addr agent t rid (request_for-none m n v e) f v)

pub lookup-cleanup_none :
    (m : PairingApprovalManager) (now : ℕ) (id : String)
    → ApprovalInv m
    → lookup id m.pending_by_id ≡ none
    → lookup id (cleanup_expired m now).pending_by_id ≡ none
unfolding cleanup_expired
lookup-cleanup_none m now id v h =
    ground (arith, lookup-retain (λ _ r. ltb now r.expires_at) id m.pending_by_id v.ids)

cleanup-IsFresh :
    (m : PairingApprovalManager) (now : ℕ) (id : Option String)
    → ApprovalInv m
    → IsFresh m id
    → IsFresh (cleanup_expired m now) id
cleanup-IsFresh m now none v f = tt
cleanup-IsFresh m now (some rid) v f = lookup-cleanup_none m now rid v f

pub ensure_pending-Inv :
    (m : PairingApprovalManager) (now : ℕ) (n addr agent : String) (t : ℕ) (id : Option String)
    → ApprovalInv m
    → IsFresh m id
    → ApprovalInv (ensure_pending m now n addr agent t id).0
unfolding ensure_pending
ensure_pending-Inv m now n addr agent t id v f = elim (Bool-cases (is_blank n)) [
  | inl blank ↦ rw blank v
  | inr named ↦ rw named (
      ensure_for-Inv (cleanup_expired m now) now n addr agent t id (cleanup_expired-Inv m now v)
        (cleanup-IsFresh m now id v f) _ refl)
]

status-Inv :
    (m : PairingApprovalManager) (now : ℕ) (n : String)
    → ApprovalInv m
    → ApprovalInv (status m now n).0
unfolding status
status-Inv m now n v = elim (Bool-cases (is_blank n)) [
  | inl blank ↦ rw blank v
  | inr named ↦ rw named (cleanup_expired-Inv m now v)
]

approve_in-Inv :
    (m : PairingApprovalManager) (id : String) (o : Option PairingApprovalRequest)
    → lookup id m.pending_by_id ≡ o
    → ApprovalInv m
    → ApprovalInv (approve_in m id o).0 × ApprovalInv (reject_in m id o).0
approve_in-Inv m id none e v = (v, v)
approve_in-Inv m id (some req) e v =
    let s = settle-Inv m id req e v in
    (
      record {
        ids = s.ids;
        nonces = s.nonces;
        approvals = insert-Distinct req.nonce req.expires_at m.approved_nonces v.approvals;
        rejections = s.rejections;
        link = s.link;
        back = s.back;
      },
      record {
        ids = s.ids;
        nonces = s.nonces;
        approvals = s.approvals;
        rejections = insert-Distinct req.nonce req.expires_at m.rejected_nonces v.rejections;
        link = s.link;
        back = s.back;
      },
    )

-- Approve and Reject keep the maps in agreement.
pub approve-Inv :
    (m : PairingApprovalManager) (now : ℕ) (id : String)
    → ApprovalInv m
    → ApprovalInv (approve m now id).0 × ApprovalInv (reject m now id).0
unfolding approve reject
approve-Inv m now id v =
    approve_in-Inv (cleanup_expired m now) id _ refl (cleanup_expired-Inv m now v)

drop_pending-Inv :
    (m : PairingApprovalManager) (n : String) (o : Option String)
    → lookup n m.pending_by_nonce ≡ o
    → ApprovalInv m
    → ApprovalInv (drop_pending m n o)
drop_pending-Inv m n none e v = v
drop_pending-Inv m n (some id) e v = elim (Option-cases (lookup id m.pending_by_id)) [
  | inl missing ↦ absurd (ground (arith, v.back n id e))
  | inr (req, at) ↦
      let same : req.nonce ≡ n = ground (arith, v.back n id e) in
      let s = settle-Inv m id req at v in
      record {
        ids = s.ids;
        nonces = rw same at s.nonces;
        approvals = v.approvals;
        rejections = v.rejections;
        link = rw same at s.link;
        back = rw same at s.back;
      }
]

pub clear_token_decision-Inv :
    (m : PairingApprovalManager) (n : String)
    → ApprovalInv m
    → ApprovalInv (clear_token_decision m n)
unfolding clear_token_decision
clear_token_decision-Inv m n v = elim (Bool-cases (is_blank n)) [
  | inl blank ↦ rw blank v
  | inr named ↦
      let d = drop_pending-Inv m n (lookup n m.pending_by_nonce) refl v in
      rw named (record {
        ids = d.ids;
        nonces = d.nonces;
        approvals = erase-Distinct n _ d.approvals;
        rejections = erase-Distinct n _ d.rejections;
        link = d.link;
        back = d.back;
      })
]

-- The states that the methods lead to, at any times. A random id is one that is not in use.
pub data Reachable : PairingApprovalManager → Type 0 where
  started : Reachable new_pairing_approval_manager
  ensures :
      {m : PairingApprovalManager} (now : ℕ) (n addr agent : String) (t : ℕ) (id : Option String)
      → IsFresh m id
      → Reachable m
      → Reachable (ensure_pending m now n addr agent t id).0
  asks :
      {m : PairingApprovalManager} (now : ℕ) (n : String)
      → Reachable m
      → Reachable (status m now n).0
  approves :
      {m : PairingApprovalManager} (now : ℕ) (id : String)
      → Reachable m
      → Reachable (approve m now id).0
  rejects :
      {m : PairingApprovalManager} (now : ℕ) (id : String)
      → Reachable m
      → Reachable (reject m now id).0
  lists : {m : PairingApprovalManager} (now : ℕ) → Reachable m → Reachable (list_pending m now).0
  clears :
      {m : PairingApprovalManager} (n : String) → Reachable m → Reachable (clear_token_decision m n)

new-Inv : ApprovalInv new_pairing_approval_manager
unfolding new_pairing_approval_manager lookup
new-Inv = record {
  ids = tt;
  nonces = tt;
  approvals = tt;
  rejections = tt;
  link = λ id req h. absurd (cc);
  back = λ n id h. absurd (cc);
}

list_pending-Inv :
    (m : PairingApprovalManager) (now : ℕ) → ApprovalInv m → ApprovalInv (list_pending m now).0
unfolding list_pending
list_pending-Inv m now v = cleanup_expired-Inv m now v

-- In every state that the methods lead to, whatever their order and the times, each pending
-- request is found under its own nonce and each waiting nonce leads to its own request. A random
-- request id is one that is not in use.
pub Reachable-Inv : {m : PairingApprovalManager} → Reachable m → ApprovalInv m
Reachable-Inv started = new-Inv
Reachable-Inv (ensures now n addr agent t id f r) =
    ensure_pending-Inv _ now n addr agent t id (Reachable-Inv r) f
Reachable-Inv (asks now n r) = status-Inv _ now n (Reachable-Inv r)
Reachable-Inv (approves now id r) = (approve-Inv _ now id (Reachable-Inv r)).0
Reachable-Inv (rejects now id r) = (approve-Inv _ now id (Reachable-Inv r)).1
Reachable-Inv (lists now r) = list_pending-Inv _ now (Reachable-Inv r)
Reachable-Inv (clears n r) = clear_token_decision-Inv _ n (Reachable-Inv r)
