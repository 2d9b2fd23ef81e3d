-- ===== src/Poller/Calls.antt =====
-- src/modules/bridge/poller_ownership.rs: the calls of a registry, and what each has found if
-- it succeeds.
use im_bridge_rs.Common.{
  ℕ, suc, ℤ, ==ℤ_iff, ◌==ℤ◌, String, true, false, none, some, List, [], ◌∷◌, ◌≡◌, inl, inr, refl,
  arith, eq_iff, Option-cases, is_positive,
}
use im_bridge_rs.Errors.{ok, err}
use im_bridge_rs.Poller.{
  PollerOwner, PollerOwnershipRecord, PollerRuntimeBinding, PollerResult, MemoryPollerRegistry,
  get_id, insert_id, remove_id, is_empty, bootstrap_legacy, transfer, claim_runtime,
  release_runtime, assert_can_start, assert_fence,
}

pub data RegistryCall : Type 0 where
  bootstraps : ℤ → RegistryCall
  -- the bot, the expected owner and epoch, and the new owner
  transfers : ℤ → PollerOwner → ℕ → PollerOwner → RegistryCall
  claims : ℤ → PollerRuntimeBinding → RegistryCall
  releases : ℤ → String → RegistryCall

-- A call that fails leaves the registry as it is.
abbrev pub after :
    {A : Type 0}
    → MemoryPollerRegistry
    → PollerResult (A × MemoryPollerRegistry)
    → MemoryPollerRegistry
after r (ok (a, s)) = s
after r (err e) = r

abbrev pub after_only :
    MemoryPollerRegistry → PollerResult MemoryPollerRegistry → MemoryPollerRegistry
after_only r (ok s) = s
after_only r (err e) = r

unfoldable pub call : RegistryCall → MemoryPollerRegistry → MemoryPollerRegistry
unfolding bootstrap_legacy transfer claim_runtime release_runtime
call (bootstraps id) r = after r (bootstrap_legacy r id)
call (transfers id owner epoch new) r = after r (transfer r id owner epoch new)
call (claims id binding) r = after_only r (claim_runtime r id binding)
call (releases id instance) r = after_only r (release_runtime r id instance)

unfoldable pub call_all : List RegistryCall → MemoryPollerRegistry → MemoryPollerRegistry
unfolding call
call_all [] r = r
call_all (c ∷ cs) r = call_all cs (call c r)

module _ {A : Type 0} where
  pub get-insert_same : (id : ℤ) (a : A) (m : List (ℤ × A)) → get_id id (insert_id id a m) ≡ some a
  unfolding get_id insert_id
  get-insert_same id a [] = ground (arith, ==ℤ_iff id id)
  get-insert_same id a ((k, b) ∷ m) = ground (arith, get-insert_same id a m)

  pub get-insert_other :
      (id q : ℤ) (a : A) (m : List (ℤ × A))
      → (q ==ℤ id) ≡ false
      → get_id id (insert_id q a m) ≡ get_id id m
  unfolding get_id insert_id
  get-insert_other id q a [] d = ground (arith, d)
  get-insert_other id q a ((k, b) ∷ m) d =
      ground (arith, d, ==ℤ_iff k q, ==ℤ_iff k id, ==ℤ_iff q id, get-insert_other id q a m d)

  pub get-remove_other :
      (id q : ℤ) (m : List (ℤ × A)) → (q ==ℤ id) ≡ false → get_id id (remove_id q m) ≡ get_id id m
  unfolding get_id remove_id
  get-remove_other id q [] d = refl
  get-remove_other id q ((k, b) ∷ m) d =
      ground (arith, d, ==ℤ_iff k q, ==ℤ_iff k id, ==ℤ_iff q id, get-remove_other id q m d)

  pub remove-insert_absent :
      (id : ℤ) (a : A) (m : List (ℤ × A)) → get_id id m ≡ none → remove_id id (insert_id id a m) ≡ m
  unfolding get_id insert_id remove_id
  remove-insert_absent id a [] h = ground (arith, ==ℤ_iff id id)
  remove-insert_absent id a ((k, b) ∷ m) h = ground (arith, h, remove-insert_absent id a m)

module _ (P : MemoryPollerRegistry → Type 0) (r : MemoryPollerRegistry) (start : P r) where
  pub after-holds :
      {A : Type 0} (m : PollerResult (A × MemoryPollerRegistry))
      → ((a : A) (s : MemoryPollerRegistry) → m ≡ ok (a, s) → P s)
      → P (after r m)
  after-holds (ok (a, s)) f = f a s refl
  after-holds (err e) f = start

  pub after_only-holds :
      (m : PollerResult MemoryPollerRegistry)
      → ((s : MemoryPollerRegistry) → m ≡ ok s → P s)
      → P (after_only r m)
  after_only-holds (ok s) f = f s refl
  after_only-holds (err e) f = start

abbrev pub with_record : ℤ → PollerOwnershipRecord → MemoryPollerRegistry → MemoryPollerRegistry
with_record id p r = record r { records = insert_id id p r.records }

-- What a transfer that succeeds has found, and the registry that it leaves.
pub transfer-ok :
    (r s : MemoryPollerRegistry) (id : ℤ) (owner new : PollerOwner) (epoch : ℕ)
    (p : PollerOwnershipRecord)
    → transfer r id owner epoch new ≡ ok (p, s)
    → (s ≡ with_record id p r)
      × ((p.epoch ≡ suc epoch)
          × ((f : PollerOwnershipRecord) × ((get_id id r.records ≡ some f) × (f.epoch ≡ epoch))))
unfolding transfer
transfer-ok r s id owner new epoch p h = elim (Option-cases (get_id id r.records)) [
  | inl e ↦ absurd (ground (arith, h, e))
  | inr (f, e) ↦ (ground (arith, h, e), (ground (arith, h, e), (f, (e, ground (arith, h, e)))))
]

-- What a claim that succeeds has found, and the registry that it leaves.
pub claim_runtime-ok :
    (r s : MemoryPollerRegistry) (id : ℤ) (b : PollerRuntimeBinding)
    → claim_runtime r id b ≡ ok s
    → (get_id id r.runtime_bindings ≡ none)
      × ((s ≡ record r { runtime_bindings = insert_id id b r.runtime_bindings })
          × (is_positive id ≡ true))
unfolding claim_runtime assert_can_start
claim_runtime-ok r s id b h = elim (Option-cases (get_id id r.records)) [
  | inl e ↦ absurd (ground (arith, h, e))
  | inr (f, e) ↦ elim (Option-cases (get_id id r.runtime_bindings)) [
    | inl n ↦ (n, (ground (arith, h, e, n), ground (arith, h, e, n)))
    | inr (c, n) ↦ absurd (ground (arith, h, e, n))
  ]
]

pub release_runtime-ok :
    (r s : MemoryPollerRegistry) (id : ℤ) (instance : String)
    → release_runtime r id instance ≡ ok s
    → (s ≡ record r { runtime_bindings = remove_id id r.runtime_bindings })
      × ((b : PollerRuntimeBinding) × ((get_id id r.runtime_bindings ≡ some b)
            × (b.runtime_instance_id ≡ instance)))
unfolding release_runtime
release_runtime-ok r s id instance h = elim (Option-cases (get_id id r.runtime_bindings)) [
  | inl n ↦ absurd (ground (arith, h, n))
  | inr (b, n) ↦
      (ground (arith, h, n), (b, (n, ground (arith, h, n, eq_iff b.runtime_instance_id instance))))
]

pub bootstrap_legacy-ok :
    (r s : MemoryPollerRegistry) (id : ℤ) (p : PollerOwnershipRecord)
    → bootstrap_legacy r id ≡ ok (p, s)
    → (is_empty r.records ≡ true) × (s.runtime_bindings ≡ r.runtime_bindings)
unfolding bootstrap_legacy
bootstrap_legacy-ok r s id p h = (ground (arith, h), ground (arith, h))

-- What a fence that is accepted is compared with.
pub assert_fence-ok :
    (r : MemoryPollerRegistry) (id : ℤ) (owner : PollerOwner) (b : PollerRuntimeBinding)
    → assert_fence r id owner b ≡ ok tt
    → (p : PollerOwnershipRecord) × ((get_id id r.records ≡ some p)
        × ((p.epoch ≡ b.epoch)
            × ((c : PollerRuntimeBinding) × ((get_id id r.runtime_bindings ≡ some c)
                  × ((c.runtime_instance_id ≡ b.runtime_instance_id)
                      × ((c.internal_bot_id ≡ b.internal_bot_id) × (c.epoch ≡ b.epoch)))))))
unfolding assert_fence assert_can_start
assert_fence-ok r id owner b h = elim (Option-cases (get_id id r.records)) [
  | inl e ↦ absurd (ground (arith, h, e))
  | inr (p, e) ↦ elim (Option-cases (get_id id r.runtime_bindings)) [
    | inl n ↦ absurd (ground (arith, h, e, n))
    | inr (c, n) ↦ (
      p,
      (
        e,
        (
          ground (arith, h, e, n),
          (
            c,
            (
              n,
              (
                ground (arith, h, e, n, eq_iff c.runtime_instance_id b.runtime_instance_id),
                (
                  ground (arith, h, e, n, eq_iff c.internal_bot_id b.internal_bot_id),
                  ground (arith, h, e, n),
                ),
              ),
            ),
          ),
        ),
      ),
    )
  ]
]
