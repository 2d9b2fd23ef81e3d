-- ===== src/Examples/Poller.antt =====
-- The theorems on src/modules/bridge/poller_ownership.rs, on a bot that was handed to the bridge.
use im_bridge_rs.Common.{
  ℕ, pos, List, [], ◌∷◌, ◌≡◌, ◌≢◌, true, false, none, some, arith, refl, is_blank,
}
use im_bridge_rs.Errors.{ok, err}
use im_bridge_rs.Poller.{
  PollerOwner, PollerLifecycle, PollerOwnershipRecord, PollerRuntimeBinding, MemoryPollerRegistry,
  PollerOwnershipGuard, lifecycle_invalid, new_with_binding, transfer, guard_claim, get_id,
  insert_id, guard_release, begin_draining, runtime_fence, assert_valid, assert_fence,
}
use im_bridge_rs.Poller.Calls.{RegistryCall, bootstraps, claims, releases, call_all}
use im_bridge_rs.Poller.Fencing.{stale_fence_refused, single_writer}
use im_bridge_rs.Poller.Draining.{drains, stops, end_all, is_ok, draining_ends_writes, handover}

abbrev bridge_record : PollerOwnershipRecord
bridge_record = record { telegram_bot_id = pos 7; owner = PollerOwner.rust_bridge; epoch = 2 }

abbrev binding_of : ℕ → PollerRuntimeBinding
binding_of epoch = record {
  internal_bot_id = "bot";
  runtime_instance_id = "instance";
  epoch = epoch;
  lifecycle = PollerLifecycle.running;
}

abbrev guard : PollerOwnershipGuard
guard = new_with_binding (pos 7) PollerOwner.rust_bridge (binding_of 2)

abbrev owned : MemoryPollerRegistry
owned = record { records = (pos 7, bridge_record) ∷ []; runtime_bindings = []; bootstrapped = true }

abbrev claimed : MemoryPollerRegistry
claimed = record owned { runtime_bindings = (pos 7, binding_of 2) ∷ [] }

abbrev legacy : MemoryPollerRegistry
legacy = record owned {
  records =
      (pos 7, record { telegram_bot_id = pos 7; owner = PollerOwner.legacy_plugin; epoch = 3 })
      ∷ [];
}

stale_fence_refused_example :
    assert_fence
      (call_all (claims (pos 7) (binding_of 2) ∷ []) legacy)
      (pos 7)
      PollerOwner.rust_bridge
      (binding_of 2)
    ≢ ok tt
unfolding transfer get_id insert_id
stale_fence_refused_example =
    stale_fence_refused owned legacy (pos 7) PollerOwner.rust_bridge PollerOwner.legacy_plugin
      PollerOwner.rust_bridge 2
      (record { telegram_bot_id = pos 7; owner = PollerOwner.legacy_plugin; epoch = 3 })
      (claims (pos 7) (binding_of 2) ∷ []) (binding_of 2) refl (omega arith)

abbrev intruder_calls : List RegistryCall
intruder_calls = releases (pos 7) "intruder" ∷ bootstraps (pos 7) ∷ []

single_writer_example :
    ((binding_of 2).runtime_instance_id ≡ (binding_of 2).runtime_instance_id)
    × (((binding_of 2).internal_bot_id ≡ (binding_of 2).internal_bot_id) × (◌≡◌ {A = ℕ} 2 2))
unfolding assert_fence call_all get_id
single_writer_example =
    single_writer claimed (pos 7) PollerOwner.rust_bridge PollerOwner.rust_bridge (binding_of 2)
      (binding_of 2) intruder_calls refl (refl, (refl, tt)) refl

draining_ends_writes_example :
    (runtime_fence (
        end_all
          (stops ∷ drains ∷ [])
          (record guard { lifecycle_state = some PollerLifecycle.draining }))
      ≡ none)
    × ((assert_valid
            (end_all
              (stops ∷ drains ∷ [])
              (record guard { lifecycle_state = some PollerLifecycle.draining }))
            claimed
          ≡ err lifecycle_invalid)
        × (is_ok (
              guard_claim
                (end_all
                  (stops ∷ drains ∷ [])
                  (record guard { lifecycle_state = some PollerLifecycle.draining }))
                claimed)
            ≡ false))
unfolding begin_draining
draining_ends_writes_example =
    draining_ends_writes guard (record guard { lifecycle_state = some PollerLifecycle.draining })
      (stops ∷ drains ∷ []) claimed refl

handover_example :
    (h : PollerOwnershipGuard) × ((begin_draining guard ≡ ok h)
      × (guard_release h claimed ≡ ok owned))
unfolding guard_claim is_blank get_id insert_id
handover_example = handover guard owned claimed PollerLifecycle.running refl refl
