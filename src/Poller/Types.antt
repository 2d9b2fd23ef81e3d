-- ===== src/Poller/Types.antt =====
-- src/modules/bridge/poller_ownership.rs: owners, lifecycles, records and errors.
use im_bridge_rs.Common.{ℕ, ℤ, String, Bool, true, false, not, is_positive, if◌then◌else◌}
use im_bridge_rs.Errors.{Result, ok, err}

pub data PollerOwner : Type 0 where
  legacy_plugin rust_bridge : PollerOwner

-- `PollerOwner::as_str`
abbrev pub owner_as_str : PollerOwner → String
owner_as_str legacy_plugin = "legacy_plugin"
owner_as_str rust_bridge = "rust_bridge"

-- the derived `PartialEq`
abbrev pub owner_eq : PollerOwner → PollerOwner → Bool
owner_eq legacy_plugin legacy_plugin = true
owner_eq rust_bridge rust_bridge = true
owner_eq _ _ = false

pub record PollerOwnershipRecord : Type 0 where
  pub telegram_bot_id : ℤ  -- i64
  pub owner : PollerOwner
  pub epoch : ℕ  -- u64

pub data PollerError : Type 0 where
  bootstrap_closed not_registered not_owner epoch_mismatch invalid_bot_id : PollerError
  registry_unavailable conflict lifecycle_invalid : PollerError

-- `PollerError::as_str`
abbrev pub poller_error_as_str : PollerError → String
poller_error_as_str bootstrap_closed = "poller bootstrap closed"
poller_error_as_str not_registered = "poller not registered for numeric bot id"
poller_error_as_str not_owner = "poller not owner for numeric bot id"
poller_error_as_str epoch_mismatch = "poller epoch mismatch for numeric bot id"
poller_error_as_str invalid_bot_id = "invalid numeric bot id"
poller_error_as_str registry_unavailable = "poller ownership registry unavailable"
poller_error_as_str conflict = "poller ownership conflict"
poller_error_as_str lifecycle_invalid = "poller runtime lifecycle is not writable"

abbrev pub PollerResult : Type 0 → Type 0
PollerResult A = Result PollerError A

abbrev pub require_numeric_bot_id : ℤ → PollerResult (Unit {0})
require_numeric_bot_id id = if not (is_positive id) then err invalid_bot_id else ok tt

pub data PollerLifecycle : Type 0 where
  starting running draining stopped : PollerLifecycle

abbrev pub can_own : PollerLifecycle → Bool
can_own starting = true
can_own running = true
can_own _ = false

abbrev pub accepts_writes : PollerLifecycle → Bool
accepts_writes running = true
accepts_writes _ = false

pub record PollerRuntimeBinding : Type 0 where
  pub internal_bot_id : String
  pub runtime_instance_id : String
  pub epoch : ℕ  -- u64
  pub lifecycle : PollerLifecycle
