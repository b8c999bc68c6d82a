-- ===== src/Security/Approval.antt =====
-- internal/security/pairing_approval.go: the pairing requests that wait for the operator, and the
-- nonces that were approved or rejected. `now` is the time a method reads; the random request id
-- is an argument, none if the random source fails.
pub mod Cleanup
pub mod Steps
pub mod Lifecycle
use cdev.Base.{
  String, ℕ, ◌+◌, ◌*◌, Bool, true, false, ◌||◌, not, List, [], ◌∷◌, Option, none, some, ltb, ◌==◌,
  if◌then◌else◌, test, string_discrete, string_eq,
}
use cdev.Base.Map.{Map, lookup, insert, erase, retain}

pub data PairingApprovalStatus : Type 0 where
  none_status pending approved rejected : PairingApprovalStatus

pub record PairingApprovalRequest : Type 0 where
  pub request_id : String
  pub remote_addr : String
  pub user_agent : String
  pub created_at : ℕ
  pub expires_at : ℕ
  pub nonce : String

pub record PairingApprovalManager : Type 0 where
  pub pending_by_id : Map String PairingApprovalRequest
  pub pending_by_nonce : Map String String
  pub approved_nonces : Map String ℕ
  pub rejected_nonces : Map String ℕ

pub data ApprovalError : Type 0 where
  nonce_required random_failed not_found : ApprovalError

pub data Result {ℓ} (A : Type ℓ) : Type ℓ where
  ok : A → Result A
  err : ApprovalError → Result A

-- NewPairingApprovalManager
unfoldable pub new_pairing_approval_manager : PairingApprovalManager
new_pairing_approval_manager = record {
  pending_by_id = [];
  pending_by_nonce = [];
  approved_nonces = [];
  rejected_nonces = [];
}

-- The third loop of cleanupExpiredLocked: !req.ExpiresAt.After(now) deletes from both maps.
unfoldable pub expire_pending :
    ℕ → Map String PairingApprovalRequest → Map String String → Map String String
expire_pending now [] by_nonce = by_nonce
expire_pending now ((_, req) ∷ m) by_nonce =
    expire_pending now m (if ltb now req.expires_at then by_nonce else erase req.nonce by_nonce)

-- cleanupExpiredLocked
unfoldable pub cleanup_expired : PairingApprovalManager → ℕ → PairingApprovalManager
cleanup_expired m now = record {
  approved_nonces = retain (λ _ t. ltb now t) m.approved_nonces;
  rejected_nonces = retain (λ _ t. ltb now t) m.rejected_nonces;
  pending_by_id = retain (λ _ req. ltb now req.expires_at) m.pending_by_id;
  pending_by_nonce = expire_pending now m.pending_by_id m.pending_by_nonce;
}

abbrev pub is_blank : String → Bool
is_blank s = test (string_discrete s "")

-- 5 * time.Minute in nanoseconds
abbrev pub five_minutes : ℕ
five_minutes = 5 * 60 * 1000000000

-- expiresAt.IsZero() || !expiresAt.After(now) gives the default
abbrev pub expiry_of : ℕ → ℕ → ℕ
expiry_of now expires_at =
    if expires_at == 0 || not (ltb now expires_at) then now + five_minutes else expires_at

abbrev pub add_request :
    PairingApprovalManager
    → ℕ
    → String
    → String
    → String
    → ℕ
    → Option String
    → PairingApprovalManager × Result PairingApprovalRequest
add_request m now nonce remote_addr user_agent expires_at none = (m, err random_failed)
add_request m now nonce remote_addr user_agent expires_at (some request_id) =
    let req : PairingApprovalRequest = record {
      request_id = request_id;
      remote_addr = remote_addr;
      user_agent = user_agent;
      created_at = now;
      expires_at = expiry_of now expires_at;
      nonce = nonce;
    } in
    (
      record m {
        pending_by_id = insert request_id req m.pending_by_id;
        pending_by_nonce = insert nonce request_id m.pending_by_nonce;
      },
      ok req,
    )

-- The request that waits for a nonce, if both maps know it.
abbrev pub request_for : PairingApprovalManager → Option String → Option PairingApprovalRequest
request_for m none = none
request_for m (some request_id) = lookup request_id m.pending_by_id

-- A nonce that only the second map knows is deleted before a new request is made.
abbrev forget_dangling : PairingApprovalManager → String → Option String → PairingApprovalManager
forget_dangling m nonce none = m
forget_dangling m nonce (some _) = record m { pending_by_nonce = erase nonce m.pending_by_nonce }

abbrev pub ensure_for :
    PairingApprovalManager
    → ℕ
    → String
    → String
    → String
    → ℕ
    → Option String
    → Option PairingApprovalRequest
    → PairingApprovalManager × Result PairingApprovalRequest
ensure_for m now nonce remote_addr user_agent expires_at id (some req) = (m, ok req)
ensure_for m now nonce remote_addr user_agent expires_at id none =
    add_request (forget_dangling m nonce (lookup nonce m.pending_by_nonce)) now nonce remote_addr
      user_agent expires_at id

-- EnsurePending
unfoldable pub ensure_pending :
    PairingApprovalManager
    → ℕ
    → String
    → String
    → String
    → ℕ
    → Option String
    → PairingApprovalManager × Result PairingApprovalRequest
ensure_pending m now nonce remote_addr user_agent expires_at id =
    if is_blank nonce
    then (m, err nonce_required)
    else (let c = cleanup_expired m now in
        ensure_for c now nonce remote_addr user_agent expires_at id
          (request_for c (lookup nonce c.pending_by_nonce)))

abbrev pub status_in : Option ℕ → Option ℕ → Option String → PairingApprovalStatus
status_in (some _) _ _ = approved
status_in none (some _) _ = rejected
status_in none none (some _) = pending
status_in none none none = none_status

-- Status
unfoldable pub status :
    PairingApprovalManager → ℕ → String → PairingApprovalManager × PairingApprovalStatus
status m now nonce =
    if is_blank nonce
    then (m, none_status)
    else (let c = cleanup_expired m now in
        (
          c,
          status_in (lookup nonce c.approved_nonces) (lookup nonce c.rejected_nonces)
              (lookup nonce c.pending_by_nonce),
        ))

abbrev pub settle :
    PairingApprovalManager → PairingApprovalRequest → String → PairingApprovalManager
settle m req request_id = record m {
  pending_by_id = erase request_id m.pending_by_id;
  pending_by_nonce = erase req.nonce m.pending_by_nonce;
}

abbrev pub approve_in :
    PairingApprovalManager
    → String
    → Option PairingApprovalRequest
    → PairingApprovalManager × Result PairingApprovalRequest
approve_in m request_id none = (m, err not_found)
approve_in m request_id (some req) =
    let s = settle m req request_id in
    (record s { approved_nonces = insert req.nonce req.expires_at s.approved_nonces }, ok req)

-- Approve
unfoldable pub approve :
    PairingApprovalManager → ℕ → String → PairingApprovalManager × Result PairingApprovalRequest
approve m now request_id =
    let c = cleanup_expired m now in approve_in c request_id (lookup request_id c.pending_by_id)

abbrev pub reject_in :
    PairingApprovalManager
    → String
    → Option PairingApprovalRequest
    → PairingApprovalManager × Result PairingApprovalRequest
reject_in m request_id none = (m, err not_found)
reject_in m request_id (some req) =
    let s = settle m req request_id in
    (record s { rejected_nonces = insert req.nonce req.expires_at s.rejected_nonces }, ok req)

-- Reject
unfoldable pub reject :
    PairingApprovalManager → ℕ → String → PairingApprovalManager × Result PairingApprovalRequest
reject m now request_id =
    let c = cleanup_expired m now in reject_in c request_id (lookup request_id c.pending_by_id)

requests : Map String PairingApprovalRequest → List PairingApprovalRequest
requests [] = []
requests ((_, req) ∷ m) = req ∷ requests m

-- ListPending
unfoldable pub list_pending :
    PairingApprovalManager → ℕ → PairingApprovalManager × List PairingApprovalRequest
unfolding requests
list_pending m now = let c = cleanup_expired m now in (c, requests c.pending_by_id)

abbrev pub drop_pending : PairingApprovalManager → String → Option String → PairingApprovalManager
drop_pending m nonce none = m
drop_pending m nonce (some request_id) = record m {
  pending_by_nonce = erase nonce m.pending_by_nonce;
  pending_by_id = erase request_id m.pending_by_id;
}

-- ClearTokenDecision
unfoldable pub clear_token_decision : PairingApprovalManager → String → PairingApprovalManager
clear_token_decision m nonce =
    if is_blank nonce
    then m
    else (let d = drop_pending m nonce (lookup nonce m.pending_by_nonce) in
        record d {
          approved_nonces = erase nonce d.approved_nonces;
          rejected_nonces = erase nonce d.rejected_nonces;
        })
