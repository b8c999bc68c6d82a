-- ===== src/Security/Approval/Cleanup.antt =====
-- The two maps of pending requests agree, and the cleanup keeps them so (pairing_approval.go).
use cdev.Base.{
  String, ℕ, ◌≡◌, refl, true, false, [], ◌∷◌, Option, none, some, arith, string_eq, inl, inr,
  Bool-cases, Option-cases, if◌then◌else◌, ltb, string_discrete,
}
use cdev.Base.Map.{
  Map, lookup, erase, Distinct, lookup-erase, lookup-erase_self, lookup-retain, erase-Distinct,
  retain-Distinct,
}
use cdev.Security.Approval.{
  PairingApprovalRequest, PairingApprovalManager, expire_pending, cleanup_expired,
}

abbrev pub nonce_at : Option PairingApprovalRequest → Option String
nonce_at none = none
nonce_at (some req) = some req.nonce

-- Each pending request is found under its nonce, and each nonce leads to its request.
pub record ApprovalInv (m : PairingApprovalManager) : Type 0 where
  pub ids : Distinct m.pending_by_id
  pub nonces : Distinct m.pending_by_nonce
  pub approvals : Distinct m.approved_nonces
  pub rejections : Distinct m.rejected_nonces
  pub link :
      (id : String) (req : PairingApprovalRequest)
      → lookup id m.pending_by_id ≡ some req
      → (req.request_id ≡ id) × (lookup req.nonce m.pending_by_nonce ≡ some id)
  pub back :
      (n id : String)
      → lookup n m.pending_by_nonce ≡ some id
      → nonce_at (lookup id m.pending_by_id) ≡ some n

lookup-first :
    (i : String) (q : PairingApprovalRequest) (m : Map String PairingApprovalRequest)
    → lookup i ((i, q) ∷ m) ≡ some q
unfolding lookup
lookup-first i q m = ground arith

lookup-past :
    (i j : String) (q req : PairingApprovalRequest) (m : Map String PairingApprovalRequest)
    → lookup i m ≡ none
    → lookup j m ≡ some req
    → lookup j ((i, q) ∷ m) ≡ some req
unfolding lookup
lookup-past i j q req m fresh at = ground arith

module _ (now : ℕ) where
  lookup-expire_pending :
      (n id : String) (m : Map String PairingApprovalRequest) (b : Map String String)
      → lookup n (expire_pending now m b) ≡ some id
      → lookup n b ≡ some id
  unfolding expire_pending
  lookup-expire_pending n id [] b h = h
  lookup-expire_pending n id ((i, req) ∷ m) b h = elim (Bool-cases (ltb now req.expires_at)) [
    | inl live ↦ lookup-expire_pending n id m b (rw live at h)
    | inr dead ↦
        let g = lookup-expire_pending n id m (erase req.nonce b) (rw dead at h) in
        ground (arith, lookup-erase req.nonce n b)
  ]

  expire_pending-none :
      (n : String) (m : Map String PairingApprovalRequest) (b : Map String String)
      → lookup n b ≡ none
      → lookup n (expire_pending now m b) ≡ none
  expire_pending-none n m b h = elim (Option-cases (lookup n (expire_pending now m b))) [
    | inl gone ↦ gone
    | inr (id, there) ↦ absurd (ground (arith, lookup-expire_pending n id m b there))
  ]

  expire_pending-dead :
      (id : String) (req : PairingApprovalRequest) (m : Map String PairingApprovalRequest)
      (b : Map String String)
      → lookup id m ≡ some req
      → ltb now req.expires_at ≡ false
      → lookup req.nonce (expire_pending now m b) ≡ none
  unfolding expire_pending lookup
  expire_pending-dead id req [] b h d = ground arith
  expire_pending-dead id req ((i, q) ∷ m) b h d = elim (string_discrete i id) [
    | yes p ↦
        let e : q ≡ req = ground arith in
        rw (e, d)
          (expire_pending-none req.nonce m (erase req.nonce b) (lookup-erase_self req.nonce b))
    | no p ↦ expire_pending-dead id req m _ (ground arith) d
  ]

  spared :
      (n id : String) (q : PairingApprovalRequest) (b : Map String String)
      → lookup n b ≡ some id
      → (q.nonce ≡ n → ltb now q.expires_at ≡ true)
      → lookup n (if ltb now q.expires_at then b else erase q.nonce b) ≡ some id
  spared n id q b e h = elim (string_discrete q.nonce n) [
    | yes p ↦ rw (h p) e
    | no p ↦ ground (arith, lookup-erase q.nonce n b)
  ]

  expire_pending-live :
      (n id : String) (m : Map String PairingApprovalRequest) (b : Map String String)
      → Distinct m
      → ((i : String) (req : PairingApprovalRequest)
          → lookup i m ≡ some req
          → req.nonce ≡ n
          → ltb now req.expires_at ≡ true)
      → lookup n b ≡ some id
      → lookup n (expire_pending now m b) ≡ some id
  unfolding expire_pending lookup
  expire_pending-live n id [] b d h e = e
  expire_pending-live n id ((i, q) ∷ m) b d h e =
      expire_pending-live n id m _ d.1 (λ j req at. h j req (lookup-past i j q req m d.0 at))
        (spared n id q b e (h i q (lookup-first i q m)))

  expire_pending-Distinct :
      (m : Map String PairingApprovalRequest) (b : Map String String)
      → Distinct b
      → Distinct (expire_pending now m b)
  unfolding expire_pending
  expire_pending-Distinct [] b d = d
  expire_pending-Distinct ((i, q) ∷ m) b d = elim (Bool-cases (ltb now q.expires_at)) [
    | inl live ↦ rw live (expire_pending-Distinct m b d)
    | inr dead ↦ rw dead (expire_pending-Distinct m _ (erase-Distinct q.nonce b d))
  ]

-- What the cleanup leaves of the requests.
lookup-cleanup_id :
    (m : PairingApprovalManager) (now : ℕ) (id : String) (req : PairingApprovalRequest)
    → ApprovalInv m
    → lookup id (cleanup_expired m now).pending_by_id ≡ some req
    → (lookup id m.pending_by_id ≡ some req) × (ltb now req.expires_at ≡ true)
unfolding cleanup_expired
lookup-cleanup_id m now id req v h =
    ground (arith, lookup-retain (λ _ r. ltb now r.expires_at) id m.pending_by_id v.ids)

cleanup-live :
    (m : PairingApprovalManager) (now : ℕ) (n id i : String) (req r : PairingApprovalRequest)
    → ApprovalInv m
    → lookup id m.pending_by_id ≡ some req
    → req.nonce ≡ n
    → ltb now req.expires_at ≡ true
    → lookup i m.pending_by_id ≡ some r
    → r.nonce ≡ n
    → ltb now r.expires_at ≡ true
cleanup-live m now n id i req r v at e live at' e' =
    ground (arith, (v.link id req at).1, (v.link i r at').1)

cleanup-back :
    (m : PairingApprovalManager) (now : ℕ)
    → ApprovalInv m
    → (n id : String) → lookup n (cleanup_expired m now).pending_by_nonce ≡ some id
    → nonce_at (lookup id (cleanup_expired m now).pending_by_id) ≡ some n
unfolding cleanup_expired
cleanup-back m now v n id h = elim (Option-cases (lookup id m.pending_by_id)) [
  | inl missing ↦ absurd (ground (arith, v.back n id (lookup-expire_pending now n id _ _ h)))
  | inr (req, at) ↦ elim (Bool-cases (ltb now req.expires_at)) [
    | inl live ↦ ground (
      arith,
      lookup-retain (λ _ r. ltb now r.expires_at) id m.pending_by_id v.ids,
      v.back n id (lookup-expire_pending now n id _ _ h),
    )
    | inr dead ↦ absurd (
        ground (
          arith,
          v.back n id (lookup-expire_pending now n id _ _ h),
          expire_pending-dead now id req m.pending_by_id m.pending_by_nonce at dead,
        ))
  ]
]

-- The cleanup keeps the two maps in agreement.
pub cleanup_expired-Inv :
    (m : PairingApprovalManager) (now : ℕ) → ApprovalInv m → ApprovalInv (cleanup_expired m now)
cleanup_expired-Inv m now v = record {
  ids = unfold cleanup_expired in retain-Distinct _ m.pending_by_id v.ids;
  nonces =
      unfold cleanup_expired in
      expire_pending-Distinct now m.pending_by_id m.pending_by_nonce v.nonces;
  approvals = unfold cleanup_expired in retain-Distinct _ m.approved_nonces v.approvals;
  rejections = unfold cleanup_expired in retain-Distinct _ m.rejected_nonces v.rejections;
  link = λ id req h.
      let (at, live) = lookup-cleanup_id m now id req v h in
      let (same_id, by_nonce) = v.link id req at in
      (
        same_id,
        unfold cleanup_expired in
            expire_pending-live now req.nonce id m.pending_by_id m.pending_by_nonce v.ids
              (λ i r at' e. cleanup-live m now req.nonce id i req r v at refl live at' e) by_nonce,
      );
  back = λ n id h. cleanup-back m now v n id h;
}
