-- ===== src/Poller/Fencing.antt =====
-- src/modules/bridge/poller_ownership.rs: the fences that a registry accepts after any calls.
use im_bridge_rs.Common.{
  ℕ, suc, ◌≤◌, ◌<◌, ℤ, ==ℤ_iff, ◌==ℤ◌, String, Bool, not, ◌&&◌, str_eq, eq_iff, true, none, some,
  List, [], ◌∷◌, ◌≡◌, ◌≢◌, inl, inr, refl, arith, All, subst, Bool-cases,
}
use im_bridge_rs.Errors.{ok}
use im_bridge_rs.Poller.{
  PollerOwner, PollerOwnershipRecord, PollerRuntimeBinding, MemoryPollerRegistry, get_id, is_empty,
  bootstrap_legacy, transfer, claim_runtime, release_runtime, assert_fence,
}
use im_bridge_rs.Poller.Calls.{
  RegistryCall, bootstraps, transfers, claims, releases, call, call_all, get-insert_same,
  get-insert_other, get-remove_other, after-holds, after_only-holds, transfer-ok, claim_runtime-ok,
  release_runtime-ok, bootstrap_legacy-ok, assert_fence-ok, with_record,
}

-- The bot's record has at least the epoch.
abbrev HasEpoch : ℕ → ℤ → MemoryPollerRegistry → Type 0
HasEpoch e id r = (p : PollerOwnershipRecord) × ((get_id id r.records ≡ some p) × (e ≤ p.epoch))

empty_absent :
    (id : ℤ) (m : List (ℤ × PollerOwnershipRecord)) → is_empty m ≡ true → get_id id m ≡ none
unfolding get_id
empty_absent id [] h = refl
empty_absent id (x ∷ m) h = cc h

with_record-HasEpoch :
    (e : ℕ) (id q : ℤ) (p f : PollerOwnershipRecord) (r : MemoryPollerRegistry)
    → get_id q r.records ≡ some f
    → f.epoch < p.epoch
    → HasEpoch e id r
    → HasEpoch e id (with_record q p r)
with_record-HasEpoch e id q p f r g l (x, (h, k)) = elim (Bool-cases (q ==ℤ id)) [
  | inl same ↦
      subst (λ i. HasEpoch e i (with_record q p r)) ((==ℤ_iff q id).0 same)
        (p, (get-insert_same q p r.records, ground (arith, g, h, k, l, (==ℤ_iff q id).0 same)))
  | inr other ↦ (x, (ground (arith, h, get-insert_other id q p r.records other), k))
]

call-HasEpoch :
    (e : ℕ) (id : ℤ) (c : RegistryCall) (r : MemoryPollerRegistry)
    → HasEpoch e id r
    → HasEpoch e id (call c r)
unfolding call
call-HasEpoch e id (bootstraps q) r (x, (h, k)) =
    after-holds (HasEpoch e id) r (x, (h, k)) (bootstrap_legacy r q)
      (λ p s b.
        absurd (ground (arith, h, empty_absent id r.records, bootstrap_legacy-ok r s q p b)))
call-HasEpoch e id (transfers q owner epoch new) r h =
    after-holds (HasEpoch e id) r h (transfer r q owner epoch new) (λ p s t.
      let (same, (next, (f, (g, l)))) = transfer-ok r s q owner new epoch p t in
      rw same (with_record-HasEpoch e id q p f r g (omega (arith, next, l)) h))
call-HasEpoch e id (claims q binding) r h =
    after_only-holds (HasEpoch e id) r h (claim_runtime r q binding)
      (λ s t. rw (claim_runtime-ok r s q binding t).1.0 h)
call-HasEpoch e id (releases q instance) r h =
    after_only-holds (HasEpoch e id) r h (release_runtime r q instance)
      (λ s t. rw (release_runtime-ok r s q instance t).0 h)

call_all-HasEpoch :
    (e : ℕ) (id : ℤ) (cs : List RegistryCall) (r : MemoryPollerRegistry)
    → HasEpoch e id r
    → HasEpoch e id (call_all cs r)
unfolding call_all
call_all-HasEpoch e id [] r h = h
call_all-HasEpoch e id (c ∷ cs) r h =
    call_all-HasEpoch e id cs (call c r) (call-HasEpoch e id c r h)

-- After a bot was transferred from an epoch, and after any calls of the registry from then on, no
-- fence of that epoch or of an earlier one is accepted for the bot, whatever owner it claims.
pub stale_fence_refused :
    (r s : MemoryPollerRegistry) (id : ℤ) (owner new claimed : PollerOwner) (epoch : ℕ)
    (p : PollerOwnershipRecord) (cs : List RegistryCall) (b : PollerRuntimeBinding)
    → transfer r id owner epoch new ≡ ok (p, s)
    → b.epoch ≤ epoch
    → assert_fence (call_all cs s) id claimed b ≢ ok tt
stale_fence_refused r s id owner new claimed epoch p cs b t l = λ accepted.
    let (same, (next, (f, (g, m)))) = transfer-ok r s id owner new epoch p t in
    let (x, (h, k)) =
      call_all-HasEpoch (suc epoch) id cs s
        (rw same (p, (get-insert_same id p r.records, omega (arith, next)))) in
    let (y, (h', (k', rest))) = assert_fence-ok (call_all cs s) id claimed b accepted in
    ground (arith, h, h', k, k', l)

-- The call does not release the bot for the instance.
abbrev pub keeps : ℤ → String → RegistryCall → Bool
keeps id instance (releases q i) = not (q ==ℤ id && str_eq i instance)
keeps id instance _ = true

IsBound : ℤ → PollerRuntimeBinding → MemoryPollerRegistry → Type 0
IsBound id b r = get_id id r.runtime_bindings ≡ some b

call-IsBound :
    (id : ℤ) (b : PollerRuntimeBinding) (c : RegistryCall) (r : MemoryPollerRegistry)
    → keeps id b.runtime_instance_id c ≡ true
    → IsBound id b r
    → IsBound id b (call c r)
unfolding call IsBound
call-IsBound id b (bootstraps q) r k h =
    after-holds (IsBound id b) r h (bootstrap_legacy r q)
      (λ p s t. rw (bootstrap_legacy-ok r s q p t).1 h)
call-IsBound id b (transfers q owner epoch new) r k h =
    after-holds (IsBound id b) r h (transfer r q owner epoch new)
      (λ p s t. rw (transfer-ok r s q owner new epoch p t).0 h)
call-IsBound id b (claims q c) r k h =
    after_only-holds (IsBound id b) r h (claim_runtime r q c) (λ s t.
      let (free, (same, pos)) = claim_runtime-ok r s q c t in
      rw same (ground (arith, h, free, ==ℤ_iff q id, get-insert_other id q c r.runtime_bindings)))
call-IsBound id b (releases q i) r k h =
    after_only-holds (IsBound id b) r h (release_runtime r q i) (λ s t.
      let (same, (c, (found, e))) = release_runtime-ok r s q i t in
      rw same (
        ground (
          arith,
          h,
          found,
          e,
          k,
          ==ℤ_iff q id,
          eq_iff i b.runtime_instance_id,
          get-remove_other id q r.runtime_bindings,
        )))

call_all-IsBound :
    (id : ℤ) (b : PollerRuntimeBinding) (cs : List RegistryCall) (r : MemoryPollerRegistry)
    → All (λ c. keeps id b.runtime_instance_id c ≡ true) cs
    → IsBound id b r
    → IsBound id b (call_all cs r)
unfolding call_all
call_all-IsBound id b [] r k h = h
call_all-IsBound id b (c ∷ cs) r k h =
    call_all-IsBound id b cs (call c r) k.1 (call-IsBound id b c r k.0 h)

-- As long as no call releases the bot for the instance of a fence that was accepted, every fence that
-- is accepted for the bot, whatever owner it claims, is of the same instance, the same internal bot
-- and the same epoch: one runtime writes for a bot at a time.
pub single_writer :
    (r : MemoryPollerRegistry) (id : ℤ) (owner claimed : PollerOwner) (b c : PollerRuntimeBinding)
    (cs : List RegistryCall)
    → assert_fence r id owner b ≡ ok tt
    → All (λ x. keeps id b.runtime_instance_id x ≡ true) cs
    → assert_fence (call_all cs r) id claimed c ≡ ok tt
    → (c.runtime_instance_id ≡ b.runtime_instance_id)
      × ((c.internal_bot_id ≡ b.internal_bot_id) × (c.epoch ≡ b.epoch))
unfolding IsBound
single_writer r id owner claimed b c cs accepted kept later =
    let (p, (g, (l, (held, (h, (i, (j, k))))))) = assert_fence-ok r id owner b accepted in
    let (p', (g', (l', (held', (h', (i', (j', k'))))))) =
      assert_fence-ok (call_all cs r) id claimed c later in
    let still = call_all-IsBound id held cs r (rw i kept) h in
    (
      ground (arith, still, h', i, i'),
      (ground (arith, still, h', j, j'), ground (arith, still, h', k, k')),
    )
