-- ===== src/Security/Registry/Removal.antt =====
-- Removing devices: what it unbinds and which workspaces it reports (auth_registry.go).
use cdev.Base.{
  is_empty, String, ℕ, ◌≡◌, ◌≢◌, refl, sym, ap, ◌∙◌, Bool, true, false, not, List, [], ◌∷◌, Option,
  none, some, arith, string_eq, inl, inr, Bool-cases, if◌then◌else◌, ite, string_discrete, is_some,
  leb, ◌&&◌,
}
use cdev.Base.Map.{Map, lookup, erase, Distinct, lookup-erase, lookup-erase_self}
use cdev.Security.Registry.{
  DeviceSession, Bindings, AuthRegistry, prune_device_bindings, without_device, remove_device,
  remove_all, expired_devices, prune_expired, is_expired, is_blank, is_refresh_nonce_valid,
}

-- What a workspace keeps when a device goes: its other devices; nothing is left of one that has
-- no other.
abbrev pub left_over : Map String ℕ → Option (Option (Map String ℕ))
left_over [] = none
left_over (d ∷ ds) = some (some (d ∷ ds))

abbrev pub unbound : String → Option (Option (Map String ℕ)) → Option (Option (Map String ℕ))
unbound id none = none
unbound id (some none) = none
unbound id (some (some ds)) = left_over (erase id ds)

lookup-prune_none :
    (id w : String) (m : Bindings)
    → lookup w m ≡ none
    → lookup w (prune_device_bindings id m).0 ≡ none
unfolding prune_device_bindings lookup
lookup-prune_none id w [] h = refl
lookup-prune_none id w ((v, none) ∷ m) h = ground (arith, lookup-prune_none id w m)
lookup-prune_none id w ((v, some ds) ∷ m) h = ground (arith, lookup-prune_none id w m)

lookup-prune :
    (id w : String) (m : Bindings)
    → Distinct m
    → lookup w (prune_device_bindings id m).0 ≡ unbound id (lookup w m)
unfolding prune_device_bindings lookup
lookup-prune id w [] d = refl
lookup-prune id w ((v, none) ∷ m) d =
    ground (arith, lookup-prune id w m d.1, lookup-prune_none id w m)
lookup-prune id w ((v, some ds) ∷ m) d =
    ground (arith, lookup-prune id w m d.1, lookup-prune_none id w m)

-- w is in the list.
unfoldable pub mentions : String → List String → Bool
mentions w [] = false
mentions w (x ∷ xs) = ite (string_discrete x w) true (mentions w xs)

mentions-orphaned_none :
    (id w : String) (m : Bindings)
    → lookup w m ≡ none
    → mentions w (prune_device_bindings id m).1 ≡ false
unfolding prune_device_bindings lookup mentions
mentions-orphaned_none id w [] h = refl
mentions-orphaned_none id w ((v, none) ∷ m) h = ground (arith, mentions-orphaned_none id w m)
mentions-orphaned_none id w ((v, some ds) ∷ m) h = ground (arith, mentions-orphaned_none id w m)

mentions-orphaned :
    (id w : String) (m : Bindings)
    → Distinct m
    → mentions w (prune_device_bindings id m).1
      ≡ (is_some (lookup w m) && not (is_some (lookup w (prune_device_bindings id m).0)))
unfolding prune_device_bindings lookup mentions
mentions-orphaned id w [] d = refl
mentions-orphaned id w ((v, none) ∷ m) d =
    ground
      (arith, mentions-orphaned id w m d.1, mentions-orphaned_none id w m, lookup-prune_none id w m)
mentions-orphaned id w ((v, some ds) ∷ m) d =
    ground
      (arith, mentions-orphaned id w m d.1, mentions-orphaned_none id w m, lookup-prune_none id w m)

-- RemoveDevice of a device id that is not empty, with distinct workspaces: the device is gone and
-- no refresh nonce of it is valid, the other devices stay as they are, every workspace keeps its
-- other devices, and the workspaces that are reported are exactly those that had an entry and have
-- none any more.
pub remove_device_lem :
    (r : AuthRegistry) (id : String) (io : Option String)
    → Distinct r.workspaces
    → id ≢ ""
    → let (r', orphaned, e) = remove_device r id io in
      ((d : String) → lookup d r'.devices ≡ ite (string_discrete id d) none (lookup d r.devices))
      × ((nonce : String) → is_refresh_nonce_valid r' id nonce ≡ false)
      × ((w : String) → lookup w r'.workspaces ≡ unbound id (lookup w r.workspaces))
      × ((w : String)
          → mentions w orphaned
            ≡ (is_some (lookup w r.workspaces) && not (is_some (lookup w r'.workspaces))))
unfolding remove_device is_refresh_nonce_valid
remove_device_lem r id io dw named = elim (Bool-cases (is_blank id)) [
  | inl blank ↦ absurd (named (ground arith))
  | inr given ↦ rw given (
    λ d. lookup-erase id d r.devices,
    λ nonce. rw (lookup-erase_self id r.devices),
    λ w. lookup-prune id w r.workspaces dw,
    λ w. mentions-orphaned id w r.workspaces dw,
  )
]

remove_all-devices :
    (r : AuthRegistry) (ds : List String) (d : String)
    → lookup d (remove_all r ds).0.devices ≡ (if mentions d ds then none else lookup d r.devices)
unfolding remove_all mentions
remove_all-devices r [] d = refl
remove_all-devices r (x ∷ ds) d =
    ground (arith, remove_all-devices (without_device r x) ds d, lookup-erase x d r.devices)

-- Whether a device has an entry that is over: one that is nil, or whose refresh token expires at
-- the latest now. An expiry that was never set is the time 0, which is never in the future.
abbrev pub has_expired : ℕ → Option (Option DeviceSession) → Bool
has_expired now none = false
has_expired now (some none) = true
has_expired now (some (some s)) = leb s.refresh_expires_at now

is_expired_lem : (now : ℕ) (s : Option DeviceSession) → is_expired now s ≡ has_expired now (some s)
is_expired_lem now none = refl
is_expired_lem now (some s) = ground arith

mentions-expired_none :
    (now : ℕ) (d : String) (m : Map String (Option DeviceSession))
    → lookup d m ≡ none
    → mentions d (expired_devices now m) ≡ false
unfolding expired_devices lookup mentions
mentions-expired_none now d [] h = refl
mentions-expired_none now d ((x, s) ∷ m) h = elim (Bool-cases (is_expired now s)) [
  | inl e ↦ rw e (ground (arith, mentions-expired_none now d m))
  | inr e ↦ rw e (ground (arith, mentions-expired_none now d m))
]

mentions-expired :
    (now : ℕ) (d : String) (m : Map String (Option DeviceSession))
    → Distinct m
    → mentions d (expired_devices now m) ≡ has_expired now (lookup d m)
unfolding expired_devices lookup mentions
mentions-expired now d [] h = refl
mentions-expired now d ((x, s) ∷ m) h = elim (Bool-cases (is_expired now s)) [
  | inl e ↦ rw e (
      ground (
        arith,
        mentions-expired now d m h.1,
        mentions-expired_none now d m,
        e,
        is_expired_lem now s,
      ))
  | inr e ↦ rw e (
      ground (
        arith,
        mentions-expired now d m h.1,
        mentions-expired_none now d m,
        e,
        is_expired_lem now s,
      ))
]

mentions-is_empty : (d : String) (xs : List String) → is_empty xs ≡ true → mentions d xs ≡ false
unfolding mentions
mentions-is_empty d [] h = refl
mentions-is_empty d (x ∷ xs) h = absurd (cc)

-- With distinct devices, PruneExpired removes exactly those whose entry is nil or whose refresh
-- token expires at the latest now (an expiry that was never set is the zero time, so always),
-- leaves every other device as it is, and reports exactly the devices it removed.
pub prune_expired_lem :
    (r : AuthRegistry) (now : ℕ) (io : Option String) (d : String)
    → Distinct r.devices
    → let (r', expired, orphaned, e) = prune_expired r now io in
      (lookup d r'.devices
        ≡ (if has_expired now (lookup d r.devices) then none else lookup d r.devices))
      × (mentions d expired ≡ has_expired now (lookup d r.devices))
unfolding prune_expired
prune_expired_lem r now io d distinct =
    let xs = expired_devices now r.devices in
    let gone = mentions-expired now d r.devices distinct in
    elim (Bool-cases (is_empty xs)) [
      | inl nobody ↦
          let live : has_expired now (lookup d r.devices) ≡ false =
            sym gone ∙ mentions-is_empty d xs nobody in
          rw (nobody, live) (refl, unfold mentions in refl)
      | inr somebody ↦
          rw somebody (
            remove_all-devices r xs d ∙ ap (λ b. if b then none else lookup d r.devices) gone,
            gone,
          )
    ]
