-- ===== src/Poller/Draining.antt =====
-- src/modules/bridge/poller_ownership.rs: a guard from the claim of its bot to the release.
use im_bridge_rs.Common.{
  Bool, true, false, Option, none, some, List, [], ◌∷◌, ◌≡◌, refl, ◌⊎◌, inl, inr, arith, eq_iff,
}
use im_bridge_rs.Errors.{ok, err}
use im_bridge_rs.Poller.{
  PollerLifecycle, starting, running, draining, stopped, lifecycle_invalid, PollerResult,
  MemoryPollerRegistry, claim_runtime, release_runtime, assert_fence, PollerOwnershipGuard,
  current_lifecycle, runtime_fence, binding, guard_claim, guard_release, begin_draining,
  mark_stopped, drained, marked, assert_valid,
}
use im_bridge_rs.Poller.Calls.{claim_runtime-ok, get-insert_same, remove-insert_absent}

pub data Ending : Type 0 where
  drains stops : Ending

abbrev pub is_ok : {A : Type 0} → PollerResult A → Bool
is_ok (ok a) = true
is_ok (err e) = false

abbrev changed : PollerOwnershipGuard → PollerResult PollerOwnershipGuard → PollerOwnershipGuard
changed g (ok h) = h
changed g (err e) = g

-- Calls of `begin_draining` and `mark_stopped` in any order, those that fail included.
unfoldable pub end_all : List Ending → PollerOwnershipGuard → PollerOwnershipGuard
unfolding begin_draining mark_stopped
end_all [] g = g
end_all (drains ∷ es) g = end_all es (changed g (begin_draining g))
end_all (stops ∷ es) g = end_all es (changed g (mark_stopped g))

IsEnding : PollerOwnershipGuard → Type 0
IsEnding g = (g.lifecycle_state ≡ some draining) ⊎ (g.lifecycle_state ≡ some stopped)

drained-IsEnding :
    (g h : PollerOwnershipGuard) (o : Option PollerLifecycle)
    → g.lifecycle_state ≡ o
    → drained g o ≡ ok h
    → IsEnding h
unfolding drained IsEnding
drained-IsEnding g h none e b = absurd (cc b)
drained-IsEnding g h (some starting) e b = ground (arith, b)
drained-IsEnding g h (some running) e b = ground (arith, b)
drained-IsEnding g h (some draining) e b = ground (arith, b, e)
drained-IsEnding g h (some stopped) e b = absurd (cc b)

changed-IsEnding :
    (g : PollerOwnershipGuard)
    → IsEnding g
    → IsEnding (changed g (begin_draining g)) × IsEnding (changed g (mark_stopped g))
unfolding begin_draining drained mark_stopped marked IsEnding
changed-IsEnding g (inl d) = (ground (arith, d), ground (arith, d))
changed-IsEnding g (inr s) = (ground (arith, s), ground (arith, s))

end_all-IsEnding :
    (es : List Ending) (g : PollerOwnershipGuard) → IsEnding g → IsEnding (end_all es g)
unfolding end_all
end_all-IsEnding [] g i = i
end_all-IsEnding (drains ∷ es) g i =
    end_all-IsEnding es (changed g (begin_draining g)) (changed-IsEnding g i).0
end_all-IsEnding (stops ∷ es) g i =
    end_all-IsEnding es (changed g (mark_stopped g)) (changed-IsEnding g i).1

IsEnding-lem :
    (g : PollerOwnershipGuard) (r : MemoryPollerRegistry)
    → IsEnding g
    → (runtime_fence g ≡ none)
      × ((assert_valid g r ≡ err lifecycle_invalid) × (is_ok (guard_claim g r) ≡ false))
unfolding IsEnding runtime_fence current_lifecycle assert_valid assert_fence binding guard_claim
    claim_runtime
IsEnding-lem g r (inl d) = (ground (arith, d), (ground (arith, d), ground (arith, d)))
IsEnding-lem g r (inr s) = (ground (arith, s), (ground (arith, s), ground (arith, s)))

-- Once `begin_draining` has succeeded, and after any further calls of it and of `mark_stopped`, the
-- guard issues no fence for a mutation, and every registry refuses its own fence and its claim.
pub draining_ends_writes :
    (g h : PollerOwnershipGuard) (es : List Ending) (r : MemoryPollerRegistry)
    → begin_draining g ≡ ok h
    → (runtime_fence (end_all es h) ≡ none)
      × ((assert_valid (end_all es h) r ≡ err lifecycle_invalid)
          × (is_ok (guard_claim (end_all es h) r) ≡ false))
unfolding begin_draining
draining_ends_writes g h es r b =
    IsEnding-lem (end_all es h) r
      (end_all-IsEnding es h (drained-IsEnding g h g.lifecycle_state refl b))

release_claimed :
    (g h : PollerOwnershipGuard) (r s : MemoryPollerRegistry)
    → guard_claim g r ≡ ok s
    → h ≡ record g { lifecycle_state = some draining }
    → guard_release h s ≡ ok r
unfolding guard_claim guard_release release_runtime current_lifecycle binding
release_claimed g h r s c e =
    let (free, (same, positive)) = claim_runtime-ok r s g.numeric_bot_id (binding g "") c in
    ground (
      arith,
      e,
      same,
      positive,
      eq_iff g.runtime_instance_id g.runtime_instance_id,
      get-insert_same g.numeric_bot_id (binding g "") r.runtime_bindings,
      remove-insert_absent g.numeric_bot_id (binding g "") r.runtime_bindings free,
    )

handed :
    (g : PollerOwnershipGuard) (r s : MemoryPollerRegistry) (l : PollerLifecycle)
    → guard_claim g r ≡ ok s
    → g.lifecycle_state ≡ some l
    → (h : PollerOwnershipGuard) × ((begin_draining g ≡ ok h) × (guard_release h s ≡ ok r))
unfolding guard_claim claim_runtime binding current_lifecycle begin_draining drained
handed g r s starting c e =
    let h = record g { lifecycle_state = some draining } in
    (h, (ground (arith, e), release_claimed g h r s c refl))
handed g r s running c e =
    let h = record g { lifecycle_state = some draining } in
    (h, (ground (arith, e), release_claimed g h r s c refl))
handed g r s draining c e = absurd (ground (arith, e, c))
handed g r s stopped c e = absurd (ground (arith, e, c))

-- A guard that has claimed its bot in a registry, and whose lifecycle lock is not poisoned, can
-- always hand it over: it can begin to drain, then its release succeeds, and the registry is again
-- as it was before the claim.
pub handover :
    (g : PollerOwnershipGuard) (r s : MemoryPollerRegistry) (l : PollerLifecycle)
    → guard_claim g r ≡ ok s
    → g.lifecycle_state ≡ some l
    → (h : PollerOwnershipGuard) × ((begin_draining g ≡ ok h) × (guard_release h s ≡ ok r))
handover g r s l c e = handed g r s l c e
