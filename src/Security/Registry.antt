-- ===== src/Security/Registry.antt =====
-- internal/security/auth_registry.go: the devices that hold tokens and the workspaces bound to
-- them. Times count from Go's zero time. A nil pointer or nil map, which a stored file can bring
-- in, is none. What writing the file returns is an argument: none, or the error.
pub mod Invariant
pub mod Removal
use cdev.Base.{
  is_empty, String, ℕ, Bool, true, false, ◌||◌, not, List, [], ◌∷◌, ◌++◌, Option, none, some, ltb,
  ◌==◌, if◌then◌else◌, length, test, string_discrete, string_eq,
}
use cdev.Base.Map.{Map, lookup, insert, erase}

pub record DeviceSession : Type 0 where
  pub device_id : String
  pub refresh_nonce : String
  pub refresh_expires_at : ℕ
  pub access_nonce : String
  pub access_expires_at : ℕ
  pub updated_at : ℕ

abbrev pub Bindings : Type 0
Bindings = Map String (Option (Map String ℕ))

pub record AuthRegistry : Type 0 where
  pub path : String
  pub version : ℕ
  pub devices : Map String (Option DeviceSession)
  pub workspaces : Bindings

pub data AuthError : Type 0 where
  device_id_required workspace_id_required : AuthError
  device_not_registered : String → AuthError
  io_error : String → AuthError

abbrev pub auth_registry_version : ℕ
auth_registry_version = 1

-- What reading and decoding the file gives.
pub data Stored : Type 0 where
  not_exist : Stored
  unreadable bad_json : String → Stored
  decoded : ℕ → Option (Map String (Option DeviceSession)) → Option Bindings → Stored

abbrev or_empty {ℓ} : {A : Type ℓ} → Option (List A) → List A
or_empty none = []
or_empty (some m) = m

abbrev pub empty_registry : String → AuthRegistry
empty_registry path = record {
  path = path;
  version = auth_registry_version;
  devices = [];
  workspaces = [];
}

abbrev load_stored : String → Stored → AuthRegistry × Option AuthError
load_stored path not_exist = (empty_registry path, none)
load_stored path (unreadable e) = (empty_registry path, some (io_error e))
load_stored path (bad_json e) = (empty_registry path, some (io_error e))
load_stored path (decoded version devices workspaces) =
    if version == auth_registry_version
    then (
      record {
        path = path;
        version = version;
        devices = or_empty devices;
        workspaces = or_empty workspaces;
      },
      none,
    )
    else (empty_registry path, none)

abbrev pub is_blank : String → Bool
is_blank s = test (string_discrete s "")

-- LoadAuthRegistry
unfoldable pub load_auth_registry : String → Stored → AuthRegistry × Option AuthError
load_auth_registry path stored =
    if is_blank path then (empty_registry path, none) else load_stored path stored

-- saveLocked: without a path nothing is written
abbrev pub save_locked : AuthRegistry → Option String → Option AuthError
save_locked r none = none
save_locked r (some e) = if is_blank r.path then none else some (io_error e)

-- RegisterDevice
unfoldable pub register_device :
    AuthRegistry
    → ℕ
    → String
    → String
    → ℕ
    → String
    → ℕ
    → Option String
    → AuthRegistry × Option AuthError
register_device r now device_id refresh_nonce refresh_expiry access_nonce access_expiry io =
    if is_blank device_id
    then (r, some device_id_required)
    else (let session : DeviceSession = record {
      device_id = device_id;
      refresh_nonce = refresh_nonce;
      refresh_expires_at = refresh_expiry;
      access_nonce = access_nonce;
      access_expires_at = access_expiry;
      updated_at = now;
    } in
        let r' = record r { devices = insert device_id (some session) r.devices } in
        (r', save_locked r' io))

-- What BindWorkspace returns; writing to a nil map panics.
pub data Bound : Type 0 where
  bound : AuthRegistry → Option AuthError → Bound
  panic : Bound

abbrev pub bind_to :
    AuthRegistry → ℕ → String → String → Option (Option (Map String ℕ)) → Option String → Bound
bind_to r now device_id workspace_id (some none) io = panic
bind_to r now device_id workspace_id (some (some devices)) io =
    let r' = record r {
      workspaces = insert workspace_id (some (insert device_id now devices)) r.workspaces;
    } in
    bound r' (save_locked r' io)
bind_to r now device_id workspace_id none io =
    let r' = record r {
      workspaces = insert workspace_id (some ((device_id, now) ∷ [])) r.workspaces;
    } in
    bound r' (save_locked r' io)

abbrev bind_registered :
    AuthRegistry → ℕ → String → String → Option (Option DeviceSession) → Option String → Bound
bind_registered r now device_id workspace_id none io =
    bound r (some (device_not_registered device_id))
bind_registered r now device_id workspace_id (some session) io =
    bind_to r now device_id workspace_id (lookup workspace_id r.workspaces) io

-- BindWorkspace
unfoldable pub bind_workspace : AuthRegistry → ℕ → String → String → Option String → Bound
bind_workspace r now device_id workspace_id io =
    if is_blank device_id
    then bound r (some device_id_required)
    else if is_blank workspace_id
    then bound r (some workspace_id_required)
    else bind_registered r now device_id workspace_id (lookup device_id r.devices) io

-- UnbindWorkspace
unfoldable pub unbind_workspace :
    AuthRegistry → String → Option String → AuthRegistry × Option AuthError
unbind_workspace r workspace_id io =
    if is_blank workspace_id
    then (r, some workspace_id_required)
    else (let r' = record r { workspaces = erase workspace_id r.workspaces } in
        (r', save_locked r' io))

abbrev pub prune_entry : String → Map String ℕ → Bindings × List String → Bindings × List String
prune_entry workspace_id devices (rest, orphaned) =
    if is_empty devices
    then (rest, workspace_id ∷ orphaned)
    else ((workspace_id, some devices) ∷ rest, orphaned)

-- pruneDeviceBindingsLocked: the bindings that stay, and the workspaces that lost their last device
unfoldable pub prune_device_bindings : String → Bindings → Bindings × List String
prune_device_bindings device_id [] = ([], [])
prune_device_bindings device_id ((w, none) ∷ m) =
    let (rest, orphaned) = prune_device_bindings device_id m in (rest, w ∷ orphaned)
prune_device_bindings device_id ((w, some devices) ∷ m) =
    prune_entry w (erase device_id devices) (prune_device_bindings device_id m)

abbrev pub without_device : AuthRegistry → String → AuthRegistry
without_device r device_id = record r {
  devices = erase device_id r.devices;
  workspaces = (prune_device_bindings device_id r.workspaces).0;
}

-- RemoveDevice
unfoldable pub remove_device :
    AuthRegistry → String → Option String → AuthRegistry × List String × Option AuthError
remove_device r device_id io =
    if is_blank device_id
    then (r, [], some device_id_required)
    else (let r' = without_device r device_id in
        (r', (prune_device_bindings device_id r.workspaces).1, save_locked r' io))

-- session == nil || RefreshExpiresAt.IsZero() || !RefreshExpiresAt.After(now)
abbrev pub is_expired : ℕ → Option DeviceSession → Bool
is_expired now none = true
is_expired now (some s) = s.refresh_expires_at == 0 || not (ltb now s.refresh_expires_at)

unfoldable pub expired_devices : ℕ → Map String (Option DeviceSession) → List String
expired_devices now [] = []
expired_devices now ((d, s) ∷ m) =
    if is_expired now s then d ∷ expired_devices now m else expired_devices now m

-- The second loop of PruneExpired.
unfoldable pub remove_all : AuthRegistry → List String → AuthRegistry × List String
remove_all r [] = (r, [])
remove_all r (d ∷ ds) =
    let (r', orphaned) = remove_all (without_device r d) ds in
    (r', (prune_device_bindings d r.workspaces).1 ++ orphaned)

-- PruneExpired
unfoldable pub prune_expired :
    AuthRegistry → ℕ → Option String → AuthRegistry × List String × List String × Option AuthError
prune_expired r now io =
    let expired = expired_devices now r.devices in
    let (r', orphaned) = remove_all r expired in
    if is_empty expired then (r, [], [], none) else (r', expired, orphaned, save_locked r' io)

abbrev nonce_is : String → Option (Option DeviceSession) → Bool
nonce_is nonce none = false
nonce_is nonce (some none) = false
nonce_is nonce (some (some s)) = test (string_discrete s.refresh_nonce nonce)

-- IsRefreshNonceValid
unfoldable pub is_refresh_nonce_valid : AuthRegistry → String → String → Bool
is_refresh_nonce_valid r device_id nonce = nonce_is nonce (lookup device_id r.devices)

-- GetDevice
unfoldable pub get_device : AuthRegistry → String → Option (Option DeviceSession)
get_device r device_id = lookup device_id r.devices
