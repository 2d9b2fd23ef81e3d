-- ===== src/Store/Candidates.antt =====
-- The recovery candidates of src/modules/bridge/operation_store.rs: which rows, and how many.
use mathlib.Core.List.{Memᴰ}
use mathlib.Core.List.Memᴰ
use im_bridge_rs.Common.{
  length-take, ℕ, zero, suc, ◌≤◌, String, Bool, true, List, [], ◌∷◌, ◌≡◌, ◌↔◌, ◌⊎◌, refl, sym,
  subst, ap, inl, inr, arith, All, Bool-cases, length, take, eq_iff, ◌&&◌, ◌||◌, leb,
}
use im_bridge_rs.Operation.{
  BridgeOperationStatus, generated, committing, committed, OperationCommitState,
}
use im_bridge_rs.Store.{
  OperationRow, filter_rows, insert_row, order_by, by_update, is_candidate, clamp_limit,
  candidate_rows, status_eq, status_in, commit_eq,
}

-- The operations that recovery is about: those that are generated or committing, and those that are
-- committed and applied, which have yet to be delivered.
pub IsRecoverable : String → OperationRow → Type 0
IsRecoverable bot r =
    (r.bot_id ≡ bot)
    × ((r.status ≡ generated)
        ⊎ (r.status ≡ committing)
        ⊎ ((r.status ≡ committed) × (r.commit_state ≡ OperationCommitState.applied)))

recoverable_states :
    (s : BridgeOperationStatus) (c : OperationCommitState)
    → ((status_in s (generated ∷ committing ∷ [])
          || (status_eq s committed && commit_eq c OperationCommitState.applied))
        ≡ true)
      ↔ ((s ≡ generated)
          ⊎ (s ≡ committing)
          ⊎ ((s ≡ committed) × (c ≡ OperationCommitState.applied)))
recoverable_states committed OperationCommitState.applied = ground arith
recoverable_states _ _ = ground arith

is_candidate-IsRecoverable :
    (bot : String) (r : OperationRow) → (is_candidate bot r ≡ true) ↔ IsRecoverable bot r
unfolding IsRecoverable
is_candidate-IsRecoverable bot r =
    ground (arith, eq_iff r.bot_id bot, recoverable_states r.status r.commit_state)

module _ (r : OperationRow) where
  Memᴰ-filter_rows :
      (test : OperationRow → Bool) (rs : List OperationRow)
      → Memᴰ r (filter_rows test rs) ↔ (Memᴰ r rs × (test r ≡ true))
  unfolding filter_rows
  Memᴰ-filter_rows test [] = (λ m. absurd (Memᴰ.not-nil m), λ h. h.0)
  Memᴰ-filter_rows test (s ∷ rs) = elim (Bool-cases (test s)) [
    | inl e ↦ rw e (
      (λ m. elim (Memᴰ.cases_cons m) [
        | inl q ↦ (Memᴰ.head q, subst (λ x. test x ≡ true) (sym q) e)
        | inr l ↦ let (a, b) = (Memᴰ-filter_rows test rs).0 l in (Memᴰ.tail a, b)
      ]),
      (λ h. elim (Memᴰ.cases_cons h.0) [
        | inl q ↦ Memᴰ.head q
        | inr l ↦ Memᴰ.tail ((Memᴰ-filter_rows test rs).1 (l, h.1))
      ]),
    )
    | inr e ↦ rw e (
      (λ m. let (a, b) = (Memᴰ-filter_rows test rs).0 m in (Memᴰ.tail a, b)),
      (λ h. elim (Memᴰ.cases_cons h.0) [
        | inl q ↦ absurd (cc (e, ap test q, h.1))
        | inr l ↦ (Memᴰ-filter_rows test rs).1 (l, h.1)
      ]),
    )
  ]

  swapped :
      (a b : OperationRow) (rs : List OperationRow) → Memᴰ r (a ∷ b ∷ rs) → Memᴰ r (b ∷ a ∷ rs)
  swapped a b rs (Memᴰ.head e) = Memᴰ.tail (Memᴰ.head e)
  swapped a b rs (Memᴰ.tail m) = elim (Memᴰ.cases_cons m) [
    | inl q ↦ Memᴰ.head q
    | inr l ↦ Memᴰ.tail (Memᴰ.tail l)
  ]

  Memᴰ-insert_row :
      (before : OperationRow → OperationRow → Bool) (new : OperationRow) (rs : List OperationRow)
      → Memᴰ r (insert_row before new rs) ↔ Memᴰ r (new ∷ rs)
  unfolding insert_row
  Memᴰ-insert_row before new [] = (λ m. m, λ m. m)
  Memᴰ-insert_row before new (s ∷ rs) = elim (Bool-cases (before s new)) [
    | inl e ↦ rw e (
      (λ m. elim (Memᴰ.cases_cons m) [
        | inl q ↦ Memᴰ.tail (Memᴰ.head q)
        | inr l ↦ swapped s new rs (Memᴰ.tail ((Memᴰ-insert_row before new rs).0 l))
      ]),
      (λ m. elim (Memᴰ.cases_cons (swapped new s rs m)) [
        | inl q ↦ Memᴰ.head q
        | inr l ↦ Memᴰ.tail ((Memᴰ-insert_row before new rs).1 l)
      ]),
    )
    | inr e ↦ rw e ((λ m. m), (λ m. m))
  ]

  Memᴰ-order_by :
      (before : OperationRow → OperationRow → Bool) (rs : List OperationRow)
      → Memᴰ r (order_by before rs) ↔ Memᴰ r rs
  unfolding order_by
  Memᴰ-order_by before [] = (λ m. m, λ m. m)
  Memᴰ-order_by before (s ∷ rs) = (
    (λ m. elim (Memᴰ.cases_cons ((Memᴰ-insert_row before s (order_by before rs)).0 m)) [
      | inl q ↦ Memᴰ.head q
      | inr l ↦ Memᴰ.tail ((Memᴰ-order_by before rs).0 l)
    ]),
    (λ m. (Memᴰ-insert_row before s (order_by before rs)).1 (elim (Memᴰ.cases_cons m) [
      | inl q ↦ Memᴰ.head q
      | inr l ↦ Memᴰ.tail ((Memᴰ-order_by before rs).1 l)
    ])),
  )

  take-Memᴰ : (n : ℕ) (rs : List OperationRow) → Memᴰ r (take n rs) → Memᴰ r rs
  take-Memᴰ zero rs m = absurd (Memᴰ.not-nil m)
  take-Memᴰ (suc n) [] m = m
  take-Memᴰ (suc n) (s ∷ rs) (Memᴰ.head e) = Memᴰ.head e
  take-Memᴰ (suc n) (s ∷ rs) (Memᴰ.tail m) = Memᴰ.tail (take-Memᴰ n rs m)

elements-All :
    (P : OperationRow → Type 0) (rs : List OperationRow)
    → ((r : OperationRow) → Memᴰ r rs → P r)
    → All P rs
elements-All P [] f = tt
elements-All P (r ∷ rs) f = (f r (Memᴰ.head refl), elements-All P rs (λ s m. f s (Memᴰ.tail m)))

take_whole : (n : ℕ) (rs : List OperationRow) → length rs ≤ n → take n rs ≡ rs
take_whole zero [] h = refl
take_whole zero (r ∷ rs) h = absurd (omega (arith, h))
take_whole (suc n) [] h = refl
take_whole (suc n) (r ∷ rs) h = cc (take_whole n rs (omega (arith, h)))

length-take_full : (n : ℕ) (rs : List OperationRow) → n ≤ length rs → length (take n rs) ≡ n
length-take_full zero rs h = refl
length-take_full (suc n) [] h = absurd (omega (arith, h))
length-take_full (suc n) (r ∷ rs) h = omega (arith, length-take_full n rs (omega (arith, h)))

module _ (bot : String) (limit : ℕ) (rows : List OperationRow) where
  ordered-IsRecoverable :
      (r : OperationRow)
      → Memᴰ r (order_by by_update (filter_rows (is_candidate bot) rows))
        ↔ (Memᴰ r rows × IsRecoverable bot r)
  ordered-IsRecoverable r =
      let found = filter_rows (is_candidate bot) rows in
      (
        (λ m.
            let (a, b) =
              (Memᴰ-filter_rows r (is_candidate bot) rows).0
                ((Memᴰ-order_by r by_update found).0 m) in
            (a, (is_candidate-IsRecoverable bot r).0 b)),
        (λ h. (Memᴰ-order_by r by_update found).1 (
            (Memᴰ-filter_rows r (is_candidate bot) rows).1
              (h.0, (is_candidate-IsRecoverable bot r).1 h.1))),
      )

  listed_or_full :
      (length (candidate_rows bot limit rows) ≡ clamp_limit limit)
      ⊎ All (λ r. IsRecoverable bot r ↔ Memᴰ r (candidate_rows bot limit rows)) rows
  unfolding candidate_rows
  listed_or_full =
      let sorted = order_by by_update (filter_rows (is_candidate bot) rows) in
      elim (Bool-cases (leb (length sorted) (clamp_limit limit))) [
        | inl fits ↦
            let whole : take (clamp_limit limit) sorted ≡ sorted =
              take_whole (clamp_limit limit) sorted (ground (arith, fits)) in
            inr (
              rw whole (
                elements-All (λ r. IsRecoverable bot r ↔ Memᴰ r sorted) rows
                  (λ r m. (
                    λ k. (ordered-IsRecoverable r).1 (m, k),
                    λ l. ((ordered-IsRecoverable r).0 l).1,
                  ))))
        | inr over ↦ inl (length-take_full (clamp_limit limit) sorted (ground (arith, over)))
      ]

  -- Every row that is listed for recovery is one of the table, belongs to the bot, and is generated,
  -- committing, or committed and applied. At most as many rows are listed as are asked for, and at
  -- most 256, but one is allowed in any case. Either the list has all the rows that it may have, or
  -- every row of the table that is of that kind is listed.
  pub candidate_rows_lem :
      All (λ r. Memᴰ r rows × IsRecoverable bot r) (candidate_rows bot limit rows)
      × (length (candidate_rows bot limit rows) ≤ clamp_limit limit)
      × (1 ≤ clamp_limit limit)
      × (clamp_limit limit ≤ 256)
      × ((clamp_limit limit ≤ limit) ⊎ (clamp_limit limit ≡ 1))
      × ((length (candidate_rows bot limit rows) ≡ clamp_limit limit)
          ⊎ All (λ r. IsRecoverable bot r ↔ Memᴰ r (candidate_rows bot limit rows)) rows)
  unfolding candidate_rows
  candidate_rows_lem =
      let sorted = order_by by_update (filter_rows (is_candidate bot) rows) in
      (
        elements-All (λ r. Memᴰ r rows × IsRecoverable bot r) (candidate_rows bot limit rows)
            (λ r m. (ordered-IsRecoverable r).0 (take-Memᴰ r (clamp_limit limit) sorted m)),
        length-take (clamp_limit limit) sorted,
        omega arith,
        omega arith,
        ground arith,
        listed_or_full,
      )
