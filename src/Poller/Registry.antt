-- ===== src/Poller/Registry.antt =====
-- src/modules/bridge/poller_ownership.rs: `MemoryPollerRegistry`, and the fence that
-- `SharedMemoryPollerRegistry` checks with its lock held.
use im_bridge_rs.Common.{
  ℕ, suc, ◌^◌, ℤ, String, Bool, true, false, Option, none, some, List, [], ◌∷◌, ◌||◌, not, str_eq,
  ◌==◌, ◌==ℤ◌, ltb, is_blank, if◌then◌else◌,
}
use im_bridge_rs.Errors.{ok, ok_or, ◌>>=◌, ◌>>◌, refuse_if}
use im_bridge_rs.Poller.Types.{
  PollerOwner, legacy_plugin, rust_bridge, owner_eq, PollerOwnershipRecord, bootstrap_closed,
  not_registered, not_owner, epoch_mismatch, conflict, lifecycle_invalid, PollerResult,
  require_numeric_bot_id, can_own, accepts_writes, PollerRuntimeBinding,
}

-- A `HashMap` from bot ids.
module _ {A : Type 0} where
  unfoldable pub get_id : ℤ → List (ℤ × A) → Option A
  get_id id [] = none
  get_id id ((k, a) ∷ m) = if k ==ℤ id then some a else get_id id m

  unfoldable pub insert_id : ℤ → A → List (ℤ × A) → List (ℤ × A)
  insert_id id a [] = (id, a) ∷ []
  insert_id id a ((k, b) ∷ m) = if k ==ℤ id then (k, a) ∷ m else (k, b) ∷ insert_id id a m

  unfoldable pub remove_id : ℤ → List (ℤ × A) → List (ℤ × A)
  remove_id id [] = []
  remove_id id ((k, b) ∷ m) = if k ==ℤ id then remove_id id m else (k, b) ∷ remove_id id m

  abbrev pub is_empty : List (ℤ × A) → Bool
  is_empty [] = true
  is_empty (x ∷ m) = false

pub record MemoryPollerRegistry : Type 0 where
  pub records : List (ℤ × PollerOwnershipRecord)
  pub runtime_bindings : List (ℤ × PollerRuntimeBinding)
  pub bootstrapped : Bool

-- `Default::default`
abbrev pub default_registry : MemoryPollerRegistry
default_registry = record { records = []; runtime_bindings = []; bootstrapped = false }

module _ (r : MemoryPollerRegistry) where
  unfoldable pub bootstrap_legacy : ℤ → PollerResult (PollerOwnershipRecord × MemoryPollerRegistry)
  bootstrap_legacy id = do
    require_numeric_bot_id id
    refuse_if (r.bootstrapped || not (is_empty r.records)) bootstrap_closed
    ok (first, record r { records = insert_id id first r.records; bootstrapped = true })
    where
      first : PollerOwnershipRecord
      first = record { telegram_bot_id = id; owner = legacy_plugin; epoch = 1 }

  unfoldable pub assert_can_start : ℤ → PollerOwner → ℕ → PollerResult (Unit {0})
  assert_can_start id runtime_owner runtime_epoch = do
    require_numeric_bot_id id
    found ← ok_or (get_id id r.records) not_registered
    refuse_if (not (owner_eq found.owner runtime_owner)) not_owner
    refuse_if (not (found.epoch == runtime_epoch)) epoch_mismatch

  -- `heartbeat`
  abbrev pub heartbeat : ℤ → PollerOwner → ℕ → PollerResult (Unit {0})
  heartbeat = assert_can_start

  -- `u64::checked_add` of one
  abbrev pub next_epoch : ℕ → Option ℕ
  next_epoch epoch = if ltb (suc epoch) (2 ^ 64) then some (suc epoch) else none

  unfoldable pub transfer :
      ℤ
      → PollerOwner
      → ℕ
      → PollerOwner
      → PollerResult (PollerOwnershipRecord × MemoryPollerRegistry)
  transfer id expected_owner expected_epoch new_owner = do
    require_numeric_bot_id id
    found ← ok_or (get_id id r.records) not_registered
    refuse_if (not (owner_eq found.owner expected_owner)) not_owner
    refuse_if (not (found.epoch == expected_epoch)) epoch_mismatch
    refuse_if (owner_eq new_owner found.owner) not_owner
    epoch ← ok_or (next_epoch found.epoch) conflict
    let updated : PollerOwnershipRecord = record {
      telegram_bot_id = id;
      owner = new_owner;
      epoch = epoch;
    }
    ok (updated, record r { records = insert_id id updated r.records })

  unfoldable pub claim_runtime : ℤ → PollerRuntimeBinding → PollerResult MemoryPollerRegistry
  unfolding assert_can_start
  claim_runtime id binding = do
    require_numeric_bot_id id
    refuse_if
        (not (can_own binding.lifecycle)
          || is_blank binding.internal_bot_id
          || is_blank binding.runtime_instance_id)
        lifecycle_invalid
    assert_can_start id rust_bridge binding.epoch
    refuse_if (is_claimed (get_id id r.runtime_bindings)) conflict
    ok (record r { runtime_bindings = insert_id id binding r.runtime_bindings })
    where
      is_claimed : Option PollerRuntimeBinding → Bool
      is_claimed none = false
      is_claimed (some b) = true

  unfoldable pub release_runtime : ℤ → String → PollerResult MemoryPollerRegistry
  release_runtime id runtime_instance_id = do
    require_numeric_bot_id id
    binding ← ok_or (get_id id r.runtime_bindings) not_registered
    refuse_if (not (str_eq binding.runtime_instance_id runtime_instance_id)) not_owner
    ok (record r { runtime_bindings = remove_id id r.runtime_bindings })

  -- `SharedMemoryPollerRegistry::assert_fence`
  unfoldable pub assert_fence : ℤ → PollerOwner → PollerRuntimeBinding → PollerResult (Unit {0})
  unfolding assert_can_start
  assert_fence id owner binding = do
    refuse_if (not (accepts_writes binding.lifecycle)) lifecycle_invalid
    assert_can_start id owner binding.epoch
    current ← ok_or (get_id id r.runtime_bindings) not_registered
    refuse_if
        (not (str_eq current.internal_bot_id binding.internal_bot_id)
          || not (str_eq current.runtime_instance_id binding.runtime_instance_id))
        conflict
    refuse_if (not (current.epoch == binding.epoch)) epoch_mismatch
