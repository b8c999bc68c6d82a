-- ===== src/Security/Tests.antt =====
-- Runs of pairing, the device registry and the token manager on concrete states.
use cdev.Base.{
  String, ℕ, ◌<◌, ◌≡◌, ◌≢◌, ◌↔◌, refl, false, not, ◌&&◌, [], ◌∷◌, Option, none, some, is_some, ite,
  if◌then◌else◌, string_discrete, string_eq,
}
use cdev.Base.Map.{lookup, insert, retain}
use cdev.Base.Text.{text_eq}
use cdev.Security.Registry.{
  DeviceSession, AuthRegistry, AuthError, bound, bind_workspace, remove_device, prune_expired,
  is_refresh_nonce_valid,
}
use cdev.Security.Registry.Invariant.{RegistryInv, bind_workspace-Inv}
use cdev.Security.Registry.Removal.{
  unbound, mentions, has_expired, remove_device_lem, prune_expired_lem,
}
use cdev.Security.Approval.{
  approved, rejected, not_found, PairingApprovalRequest, PairingApprovalManager,
  new_pairing_approval_manager, ensure_pending, approve, reject, status,
}
use cdev.Security.Approval
use cdev.Security.Approval.Cleanup.{ApprovalInv}
use cdev.Security.Approval.Steps.{made, Reachable, started, ensures, Reachable-Inv}
use cdev.Security.Approval.Lifecycle.{approve_lem, status-approved}

abbrev device_one : DeviceSession
device_one = record {
  device_id = "d1";
  refresh_nonce = "r1";
  refresh_expires_at = 50;
  access_nonce = "a1";
  access_expires_at = 20;
  updated_at = 1;
}

abbrev registry : AuthRegistry
registry = record {
  path = "";
  version = 1;
  devices = ("d1", some device_one) ∷ ("d2", none) ∷ [];
  workspaces = ("w1", some (("d1", 2) ∷ [])) ∷ ("w2", some (("d1", 3) ∷ ("d2", 3) ∷ [])) ∷ [];
}

remove_device_lem_example :
    let (r', orphaned, e) = remove_device registry "d1" none in
    ((d : String)
      → lookup d r'.devices ≡ ite (string_discrete "d1" d) none (lookup d registry.devices))
    × ((nonce : String) → is_refresh_nonce_valid r' "d1" nonce ≡ false)
    × ((w : String) → lookup w r'.workspaces ≡ unbound "d1" (lookup w registry.workspaces))
    × ((w : String)
        → mentions w orphaned
          ≡ (is_some (lookup w registry.workspaces) && not (is_some (lookup w r'.workspaces))))
unfolding lookup string_discrete
remove_device_lem_example = remove_device_lem registry "d1" none (refl, (refl, tt)) (λ e. cc)

prune_expired_lem_example :
    let (r', expired, orphaned, e) = prune_expired registry 60 none in
    (lookup "d1" r'.devices ≡ (
      if has_expired 60 (lookup "d1" registry.devices) then none else lookup "d1" registry.devices))
    × (mentions "d1" expired ≡ has_expired 60 (lookup "d1" registry.devices))
unfolding lookup string_discrete
prune_expired_lem_example = prune_expired_lem registry 60 none "d1" (refl, (refl, tt))

registry-Inv : RegistryInv registry
unfolding lookup string_discrete
registry-Inv = record {
  devices = (refl, (refl, tt));
  workspaces = (refl, (refl, tt));
  bindings = (((λ e. cc), ((λ e. cc), tt)), (((λ e. cc), ((λ e. cc), ((λ e. cc), tt))), tt));
}

bind_workspace-Inv_example :
    (r' : AuthRegistry) × (e : Option AuthError) × (bind_workspace registry 5 "d2" "w1" none
      ≡ bound r' e)
    × RegistryInv r'
bind_workspace-Inv_example = bind_workspace-Inv registry 5 "d2" "w1" none registry-Inv

abbrev one : PairingApprovalRequest
one = made 10 "n1" "addr" "agent" 100 "q1"

abbrev asked : PairingApprovalManager
asked = (ensure_pending new_pairing_approval_manager 10 "n1" "addr" "agent" 100 (some "q1")).0

Reachable-asked : Reachable asked
unfolding lookup new_pairing_approval_manager
Reachable-asked = ensures 10 "n1" "addr" "agent" 100 (some "q1") refl started

Reachable-Inv_example : ApprovalInv asked
Reachable-Inv_example = Reachable-Inv Reachable-asked

approve_lem_example :
    (((status (approve asked 20 "q1").0 30 "n1").1 ≡ approved) ↔ (30 < 100))
    × ((approve (approve asked 20 "q1").0 30 "q1").1 ≡ Approval.err not_found)
    × ((reject (approve asked 20 "q1").0 30 "q1").1 ≡ Approval.err not_found)
unfolding approve lookup string_discrete retain insert Approval.cleanup_expired
    Approval.expire_pending ensure_pending new_pairing_approval_manager
approve_lem_example =
    approve_lem asked (approve asked 20 "q1").0 20 30 "q1" one (Reachable-Inv Reachable-asked)
      (λ e. cc) refl

status-approved_example :
    ((status asked 20 "n1").1 ≡ approved)
    ↔ ((one.nonce ≢ "") × ((t : ℕ) × (lookup "n1" asked.approved_nonces ≡ some t) × (20 < t)))
status-approved_example = status-approved asked 20 "n1" (Reachable-Inv Reachable-asked)
