-- ===== src/Security/Registry/Invariant.antt =====
-- Workspaces are bound to registered devices only (auth_registry.go).
use cdev.Base.{
  is_empty, String, ℕ, ◌≡◌, ◌≢◌, refl, List, [], ◌∷◌, Option, none, some, arith, string_eq, inl,
  inr, Bool-cases,
}
use cdev.Base.Map.{
  Map, lookup, insert, erase, Distinct, Each, Each-lookup, Each-insert, Each-erase, Each-mono,
  Each-erase_other, insert-Distinct, erase-Distinct, lookup-insert, lookup-erase,
}
use cdev.Security.Registry.{
  DeviceSession, Bindings, AuthRegistry, AuthError, bound, register_device, bind_workspace, bind_to,
  unbind_workspace, prune_device_bindings, prune_entry, without_device, remove_device, remove_all,
  expired_devices, prune_expired, is_blank, bind_registered,
}

-- A workspace has a device, and each of its devices is registered.
abbrev pub BoundIn : Map String (Option DeviceSession) → Option (Map String ℕ) → Type 0
BoundIn devices none = ⊥
BoundIn devices (some ds) = (ds ≢ []) × Each (λ d _. lookup d devices ≢ none) ds

pub record RegistryInv (r : AuthRegistry) : Type 0 where
  pub devices : Distinct r.devices
  pub workspaces : Distinct r.workspaces
  pub bindings : Each (λ _ o. BoundIn r.devices o) r.workspaces

BoundIn-mono :
    (a b : Map String (Option DeviceSession)) (o : Option (Map String ℕ))
    → ((d : String) → lookup d a ≢ none → lookup d b ≢ none)
    → BoundIn a o
    → BoundIn b o
BoundIn-mono a b none h x = x
BoundIn-mono a b (some ds) h x = (x.0, Each-mono _ _ ds (λ d _ y. h d y) x.1)

lookup-insert_kept :
    (k d : String) (s : Option DeviceSession) (m : Map String (Option DeviceSession))
    → lookup d m ≢ none
    → lookup d (insert k s m) ≢ none
lookup-insert_kept k d s m h e = ground (arith, lookup-insert k d s m)

pub register_device-Inv :
    (r : AuthRegistry) (now : ℕ) (id rn : String) (re : ℕ) (an : String) (ae : ℕ)
    (io : Option String)
    → RegistryInv r
    → RegistryInv (register_device r now id rn re an ae io).0
unfolding register_device
register_device-Inv r now id rn re an ae io v = elim (Bool-cases (is_blank id)) [
  | inl blank ↦ rw blank v
  | inr named ↦ rw named (record {
    devices = insert-Distinct id _ r.devices v.devices;
    workspaces = v.workspaces;
    bindings =
        Each-mono _ _ r.workspaces
          (λ _ o. BoundIn-mono r.devices _ o (λ d h. lookup-insert_kept id d _ r.devices h))
          v.bindings;
  })
]

insert-ne-nil : (k : String) (v : ℕ) (m : Map String ℕ) → insert k v m ≢ []
unfolding insert
insert-ne-nil k v [] h = cc
insert-ne-nil k v ((j, w) ∷ m) h = ground arith

-- A bound workspace never has a nil map, so BindWorkspace does not panic.
bind_to-Inv :
    (r : AuthRegistry) (now : ℕ) (id ws : String) (io : Option String)
    → lookup id r.devices ≢ none
    → RegistryInv r
    → (o : Option (Option (Map String ℕ))) → lookup ws r.workspaces ≡ o
    → (r' : AuthRegistry) × (e : Option AuthError) × (bind_to r now id ws o io ≡ bound r' e)
      × RegistryInv r'
bind_to-Inv r now id ws io h v none e = (
  _,
  _,
  refl,
  record {
    devices = v.devices;
    workspaces = insert-Distinct ws _ r.workspaces v.workspaces;
    bindings =
        Each-insert (λ _ o. BoundIn r.devices o) ws _ r.workspaces (λ q. cc, (h, tt)) v.bindings;
  },
)
bind_to-Inv r now id ws io h v (some none) e =
    absurd (Each-lookup (λ _ o. BoundIn r.devices o) ws none r.workspaces v.bindings e)
bind_to-Inv r now id ws io h v (some (some ds)) e =
    let old = Each-lookup (λ _ o. BoundIn r.devices o) ws (some ds) r.workspaces v.bindings e in
    (
      _,
      _,
      refl,
      record {
        devices = v.devices;
        workspaces = insert-Distinct ws _ r.workspaces v.workspaces;
        bindings =
            Each-insert (λ _ o. BoundIn r.devices o) ws _ r.workspaces
              (
                insert-ne-nil id now ds,
                Each-insert (λ d _. lookup d r.devices ≢ none) id now ds h old.1,
              )
              v.bindings;
      },
    )

bind_registered-Inv :
    (r : AuthRegistry) (now : ℕ) (id ws : String) (io : Option String)
    → RegistryInv r
    → (s : Option (Option DeviceSession)) → lookup id r.devices ≡ s
    → (r' : AuthRegistry) × (e : Option AuthError) × (bind_registered r now id ws s io ≡ bound r' e)
      × RegistryInv r'
bind_registered-Inv r now id ws io v none e = (r, _, refl, v)
bind_registered-Inv r now id ws io v (some s) e =
    bind_to-Inv r now id ws io (λ q. absurd (cc)) v (lookup ws r.workspaces) refl

-- BindWorkspace on a registry whose workspaces are bound to registered devices: it does not write
-- to a nil map, and the registry it leaves is of that kind again, also when it returns an error.
pub bind_workspace-Inv :
    (r : AuthRegistry) (now : ℕ) (id ws : String) (io : Option String)
    → RegistryInv r
    → (r' : AuthRegistry) × (e : Option AuthError) × (bind_workspace r now id ws io ≡ bound r' e)
      × RegistryInv r'
unfolding bind_workspace
bind_workspace-Inv r now id ws io v = elim (Bool-cases (is_blank id)) [
  | inl blank ↦ rw blank (r, _, refl, v)
  | inr device ↦ elim (Bool-cases (is_blank ws)) [
    | inl blank ↦ rw (device, blank) (r, _, refl, v)
    | inr workspace ↦
        rw (device, workspace) (bind_registered-Inv r now id ws io v (lookup id r.devices) refl)
  ]
]

pub unbind_workspace-Inv :
    (r : AuthRegistry) (ws : String) (io : Option String)
    → RegistryInv r
    → RegistryInv (unbind_workspace r ws io).0
unfolding unbind_workspace
unbind_workspace-Inv r ws io v = elim (Bool-cases (is_blank ws)) [
  | inl blank ↦ rw blank v
  | inr named ↦ rw named (record {
    devices = v.devices;
    workspaces = erase-Distinct ws r.workspaces v.workspaces;
    bindings = Each-erase (λ _ o. BoundIn r.devices o) ws r.workspaces v.bindings;
  })
]

prune_entry-Inv :
    (b : Map String (Option DeviceSession)) (w : String) (ds : Map String ℕ)
    (rest : Bindings × List String)
    → Each (λ d _. lookup d b ≢ none) ds
    → Each (λ _ o. BoundIn b o) rest.0
    → Each (λ _ o. BoundIn b o) (prune_entry w ds rest).0
prune_entry-Inv b w [] rest h x = x
prune_entry-Inv b w (d ∷ ds) rest h x = ((λ q. cc, h), x)

prune-Inv :
    (a b : Map String (Option DeviceSession)) (id : String) (m : Bindings)
    → ((d : String) → d ≢ id → lookup d a ≢ none → lookup d b ≢ none)
    → Each (λ _ o. BoundIn a o) m
    → Each (λ _ o. BoundIn b o) (prune_device_bindings id m).0
unfolding prune_device_bindings
prune-Inv a b id [] h x = tt
prune-Inv a b id ((w, none) ∷ m) h x = absurd x.0
prune-Inv a b id ((w, some ds) ∷ m) h x =
    prune_entry-Inv b w (erase id ds) (prune_device_bindings id m)
      (Each-erase_other _ _ id ds (λ d _. h d) x.0.1) (prune-Inv a b id m h x.1)

prune-fresh :
    (id w : String) (m : Bindings)
    → lookup w m ≡ none
    → lookup w (prune_device_bindings id m).0 ≡ none
unfolding prune_device_bindings lookup
prune-fresh id w [] h = refl
prune-fresh id w ((v, none) ∷ m) h = ground (arith, prune-fresh id w m)
prune-fresh id w ((v, some ds) ∷ m) h = ground (arith, prune-fresh id w m)

prune-Distinct : (id : String) (m : Bindings) → Distinct m → Distinct (prune_device_bindings id m).0
unfolding prune_device_bindings
prune-Distinct id [] d = tt
prune-Distinct id ((v, none) ∷ m) d = prune-Distinct id m d.1
prune-Distinct id ((v, some ds) ∷ m) d =
    ground (arith, prune-fresh id v m d.0, prune-Distinct id m d.1)

lookup-erase_kept :
    (k d : String) (m : Map String (Option DeviceSession))
    → d ≢ k
    → lookup d m ≢ none
    → lookup d (erase k m) ≢ none
lookup-erase_kept k d m n h e = ground (arith, lookup-erase k d m)

pub without_device-Inv :
    (r : AuthRegistry) (id : String) → RegistryInv r → RegistryInv (without_device r id)
without_device-Inv r id v = record {
  devices = erase-Distinct id r.devices v.devices;
  workspaces = prune-Distinct id r.workspaces v.workspaces;
  bindings =
      prune-Inv r.devices (erase id r.devices) id r.workspaces
        (λ d n h. lookup-erase_kept id d r.devices n h) v.bindings;
}

pub remove_device-Inv :
    (r : AuthRegistry) (id : String) (io : Option String)
    → RegistryInv r
    → RegistryInv (remove_device r id io).0
unfolding remove_device
remove_device-Inv r id io v = elim (Bool-cases (is_blank id)) [
  | inl blank ↦ rw blank v
  | inr named ↦ rw named (without_device-Inv r id v)
]

remove_all-Inv :
    (r : AuthRegistry) (ds : List String) → RegistryInv r → RegistryInv (remove_all r ds).0
unfolding remove_all
remove_all-Inv r [] v = v
remove_all-Inv r (d ∷ ds) v = remove_all-Inv (without_device r d) ds (without_device-Inv r d v)

pub prune_expired-Inv :
    (r : AuthRegistry) (now : ℕ) (io : Option String)
    → RegistryInv r
    → RegistryInv (prune_expired r now io).0
unfolding prune_expired
prune_expired-Inv r now io v = elim (Bool-cases (is_empty (expired_devices now r.devices))) [
  | inl nobody ↦ rw nobody v
  | inr some_expired ↦ rw some_expired (remove_all-Inv r (expired_devices now r.devices) v)
]
