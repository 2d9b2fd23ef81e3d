-- ===== src/Journal/Settled.antt =====
-- src/modules/bridge/connector_journal.rs: a settled record is never changed.
use im_bridge_rs.Common.{
  String, true, Option, none, some, List, [], ◌∷◌, ◌≡◌, refl, sym, ◌∙◌, subst, ◌⊎◌, inl, inr, ◌&&◌,
  str_eq, eq_iff, arith, Bool-cases, if◌then◌else◌,
}
use im_bridge_rs.Errors.{ok, err}
use im_bridge_rs.Journal.{
  ConnectorJournalStatus, applied, failed, ConnectorJournalRecord, conflict, invalid_transition,
  already_applied, MemoryConnectorJournal, get, is_text, applied_from, mark_applied, failed_from,
  mark_failed, unknown_from, mark_unknown, replay, replay_found,
}
use im_bridge_rs.Journal.Calls.{
  JournalCall, note, note_all, some-injective, get-insert_same, get-insert_other, IsOpen, Enters,
  Follows, Changes, note-Changes,
}

pub IsSettled : ConnectorJournalStatus → Type 0
IsSettled s = (s ≡ applied) ⊎ (s ≡ failed)

open_not_settled : (s : ConnectorJournalStatus) → IsOpen s → IsSettled s → ⊥
unfolding IsOpen IsSettled
open_not_settled s free settled = ground (arith, free, settled)

replaced_is_open :
    (c : JournalCall) (q : String) (r o : ConnectorJournalRecord) (j : MemoryConnectorJournal)
    → get q j ≡ some o
    → IsSettled o.status
    → Enters c q r j ⊎ Follows c q r j
    → ⊥
unfolding IsSettled Enters Follows IsOpen
replaced_is_open c q r o j f s (inl (e, i, n, p)) = cc (f, n)
replaced_is_open c q r o j f s (inr (x, g, free, l, d, w)) =
    open_not_settled x.status free (subst (λ t. IsSettled t.status) (some-injective (sym f ∙ g)) s)

pub settled-note :
    (c : JournalCall) (j : MemoryConnectorJournal) (id : String) (r : ConnectorJournalRecord)
    → get id j ≡ some r
    → IsSettled r.status
    → get id (note c j) ≡ some r
unfolding Changes
settled-note c j id r f s = elim (note-Changes c j) [
  | inl e ↦ rw e f
  | inr (q, x, e, why) ↦ elim (Bool-cases (str_eq q id)) [
    | inl same ↦ absurd (
        replaced_is_open c q x r j
          (subst (λ k. get k j ≡ some r) (ground (arith, same, eq_iff q id)) f) s why)
    | inr other ↦ rw e (get-insert_other id q x j other ∙ f)
  ]
]

pub settled-note_all :
    (cs : List JournalCall) (j : MemoryConnectorJournal) (id : String) (r : ConnectorJournalRecord)
    → get id j ≡ some r
    → IsSettled r.status
    → get id (note_all cs j) ≡ some r
unfolding note_all
settled-note_all [] j id r f s = f
settled-note_all (c ∷ cs) j id r f s =
    settled-note_all cs (note c j) id r (settled-note c j id r f s) s

is_text-some : (o : Option String) (s : String) → is_text o s ≡ true → o ≡ some s
is_text-some none s h = cc h
is_text-some (some t) s h = ground (arith, h, eq_iff t s)

-- What `mark_applied` leaves behind.
AppliedAs : String → String → ConnectorJournalRecord → ConnectorJournalRecord → Type 0
AppliedAs sha integrity r x =
    (x.status ≡ applied)
    × (x.after_sha256 ≡ some sha)
    × (x.after_integrity ≡ some integrity)
    × (x.locator_hash ≡ r.locator_hash)
    × (x.mutation_digest ≡ r.mutation_digest)

module _ (id sha integrity : String) (j : MemoryConnectorJournal) (r : ConnectorJournalRecord) where
  abbrev now_applied : ConnectorJournalRecord
  now_applied = record r {
    after_sha256 = some sha;
    after_integrity = some integrity;
    status = applied;
  }

  applied_from-AppliedAs :
      (s : ConnectorJournalStatus) (k : MemoryConnectorJournal)
      → get id j ≡ some r
      → r.status ≡ s
      → applied_from id sha integrity j r s ≡ ok (applied, k)
      → (x : ConnectorJournalRecord) × (get id k ≡ some x) × AppliedAs sha integrity r x
  unfolding AppliedAs applied_from
  applied_from-AppliedAs applied k f e h =
      elim (Bool-cases (is_text r.after_sha256 sha && is_text r.after_integrity integrity)) [
        | inl same ↦ (
          r,
          subst (λ l. get id l ≡ some r) (cc (rw same at h)) f,
          (
            e,
            is_text-some r.after_sha256 sha (ground (arith, same)),
            is_text-some r.after_integrity integrity (ground (arith, same)),
            refl,
            refl,
          ),
        )
        | inr other ↦ absurd (cc (rw other at h))
      ]
  applied_from-AppliedAs failed k f e h = cc h
  applied_from-AppliedAs _ k f e h = (
    now_applied,
    subst (λ l. get id l ≡ some now_applied) (cc h) (get-insert_same id now_applied j),
    (refl, refl, refl, refl, refl),
  )

  mark_applied-AppliedAs :
      (k : MemoryConnectorJournal)
      → get id j ≡ some r
      → mark_applied id sha integrity j ≡ ok (applied, k)
      → (x : ConnectorJournalRecord) × (get id k ≡ some x) × AppliedAs sha integrity r x
  unfolding mark_applied
  mark_applied-AppliedAs k f h = applied_from-AppliedAs r.status k f refl (rw f at h)

module _ (id sha integrity : String) (r x : ConnectorJournalRecord) (l : MemoryConnectorJournal)
    (f : get id l ≡ some x) (a : AppliedAs sha integrity r x) where
  applied-replay : replay id r.locator_hash r.mutation_digest l ≡ ok already_applied
  unfolding replay replay_found AppliedAs
  applied-replay = rw f (
      rw (a.0) (
        ground (
          arith,
          a.3,
          a.4,
          eq_iff x.locator_hash r.locator_hash,
          eq_iff x.mutation_digest r.mutation_digest,
        )))

  applied-mark_applied :
      (sha' integrity' : String)
      → mark_applied id sha' integrity' l
        ≡ (if str_eq sha sha' && str_eq integrity integrity' then ok (applied, l) else err conflict)
  unfolding mark_applied applied_from AppliedAs
  applied-mark_applied sha' integrity' = rw f (rw (a.0) (rw (a.1) (rw (a.2) refl)))

  applied-mark_failed : mark_failed id l ≡ err invalid_transition
  unfolding mark_failed failed_from AppliedAs
  applied-mark_failed = rw f (rw (a.0) refl)

  applied-mark_unknown : mark_unknown id l ≡ err invalid_transition
  unfolding mark_unknown unknown_from AppliedAs
  applied-mark_unknown = rw f (rw (a.0) refl)

-- Once an operation is marked as applied, then after any further calls a replay of it, with its
-- locator and digest, says that it is applied already; a further mark as applied is accepted, and
-- changes nothing, if it reports the same file, and is a conflict otherwise; and it can be marked
-- neither as failed nor as unknown.
pub applied_stays :
    (id sha integrity : String) (r : ConnectorJournalRecord) (j k : MemoryConnectorJournal)
    (cs : List JournalCall) (sha' integrity' : String)
    → get id j ≡ some r
    → mark_applied id sha integrity j ≡ ok (applied, k)
    → (replay id r.locator_hash r.mutation_digest (note_all cs k) ≡ ok already_applied)
      × (mark_applied id sha' integrity' (note_all cs k) ≡ (
          if str_eq sha sha' && str_eq integrity integrity'
          then ok (applied, note_all cs k)
          else err conflict))
      × (mark_failed id (note_all cs k) ≡ err invalid_transition)
      × (mark_unknown id (note_all cs k) ≡ err invalid_transition)
unfolding IsSettled AppliedAs
applied_stays id sha integrity r j k cs sha' integrity' f h =
    let (x, g, a) = mark_applied-AppliedAs id sha integrity j r k f h in
    let s = settled-note_all cs k id x g (inl a.0) in
    (
      applied-replay id sha integrity r x (note_all cs k) s a,
      applied-mark_applied id sha integrity r x (note_all cs k) s a sha' integrity',
      applied-mark_failed id sha integrity r x (note_all cs k) s a,
      applied-mark_unknown id sha integrity r x (note_all cs k) s a,
    )
