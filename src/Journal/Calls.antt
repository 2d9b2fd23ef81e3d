-- ===== src/Journal/Calls.antt =====
-- src/modules/bridge/connector_journal.rs: the calls of the journal one after another, and what each
-- can have changed.
use im_bridge_rs.Common.{
  String, Bool, true, false, Option, none, some, List, [], ◌∷◌, ◌≡◌, refl, ◌∙◌, ap, ◌⊎◌, inl, inr,
  str_eq, eq_iff, arith, Option-cases,
}
use im_bridge_rs.Errors.{Result, ok, err, refuse_if, ◌>>=◌}
use im_bridge_rs.Errors.Binding.{bind-ok, refuse_if-ok, Result-cases}
use im_bridge_rs.Journal.{
  ConnectorJournalStatus, prepared, applied, failed, unknown, ConnectorJournalRecord, JournalError,
  MemoryConnectorJournal, get, insert, is_noted, is_unfit, duplicate_prepare, invalid_transition,
  prepare, applied_from, mark_applied, failed_from, mark_failed, unknown_from, mark_unknown,
}

pub data JournalCall : Type 0 where
  prepares : ConnectorJournalRecord → JournalCall
  -- the operation, and the hash and the integrity of the file after it
  applies : String → String → String → JournalCall
  fails : String → JournalCall
  doubts : String → JournalCall

abbrev pub kept :
    MemoryConnectorJournal → Result JournalError MemoryConnectorJournal → MemoryConnectorJournal
kept j (ok k) = k
kept j (err e) = j

abbrev pub kept_with :
    MemoryConnectorJournal
    → Result JournalError (ConnectorJournalStatus × MemoryConnectorJournal)
    → MemoryConnectorJournal
kept_with j (ok (s, k)) = k
kept_with j (err e) = j

-- A call that fails leaves the journal as it is.
unfoldable pub note : JournalCall → MemoryConnectorJournal → MemoryConnectorJournal
unfolding prepare mark_applied mark_failed mark_unknown
note (prepares r) j = kept j (prepare r j)
note (applies id sha integrity) j = kept_with j (mark_applied id sha integrity j)
note (fails id) j = kept j (mark_failed id j)
note (doubts id) j = kept j (mark_unknown id j)

unfoldable pub note_all : List JournalCall → MemoryConnectorJournal → MemoryConnectorJournal
unfolding note
note_all [] j = j
note_all (c ∷ cs) j = note_all cs (note c j)

pub get-insert_same :
    (id : String) (r : ConnectorJournalRecord) (j : MemoryConnectorJournal)
    → get id (insert id r j) ≡ some r
unfolding get insert
get-insert_same id r [] = ground (arith, eq_iff id id)
get-insert_same id r ((k, s) ∷ j) = ground (arith, get-insert_same id r j)

pub get-insert_other :
    (id q : String) (r : ConnectorJournalRecord) (j : MemoryConnectorJournal)
    → str_eq q id ≡ false
    → get id (insert q r j) ≡ get id j
unfolding get insert
get-insert_other id q r [] d = ground (arith, d)
get-insert_other id q r ((k, s) ∷ j) d =
    ground (arith, d, eq_iff k q, eq_iff k id, eq_iff q id, get-insert_other id q r j d)

pub some-injective : {r o : ConnectorJournalRecord} → some r ≡ some o → r ≡ o
some-injective h = cc h

abbrev pub applies_to : String → JournalCall → Bool
applies_to id (applies q sha integrity) = str_eq q id
applies_to id _ = false

-- The status of an operation that is not settled.
unfoldable pub IsOpen : ConnectorJournalStatus → Type 0
IsOpen s = (s ≡ prepared) ⊎ (s ≡ unknown)

-- `r` is new under `q` by the call.
unfoldable pub Enters :
    JournalCall → String → ConnectorJournalRecord → MemoryConnectorJournal → Type 0
Enters c q r j = (c ≡ prepares r) × (r.operation_id ≡ q) × (get q j ≡ none) × (r.status ≡ prepared)

-- `r` takes the place of an open record of the same operation.
unfoldable pub Follows :
    JournalCall → String → ConnectorJournalRecord → MemoryConnectorJournal → Type 0
Follows c q r j =
    (o : ConnectorJournalRecord) × (get q j ≡ some o)
    × IsOpen o.status
    × (r.locator_hash ≡ o.locator_hash)
    × (r.mutation_digest ≡ o.mutation_digest)
    × (r.status ≡ applied → applies_to q c ≡ true)

unfoldable pub Changes : JournalCall → MemoryConnectorJournal → Type 0
Changes c j =
    (note c j ≡ j)
    ⊎ ((q : String) × (r : ConnectorJournalRecord) × (note c j ≡ insert q r j)
        × (Enters c q r j ⊎ Follows c q r j))

-- `m` is the journal `j`, or `j` with an open record of `id` replaced.
Writes : JournalCall → String → MemoryConnectorJournal → MemoryConnectorJournal → Type 0
Writes c id j m = (m ≡ j) ⊎ ((r : ConnectorJournalRecord) × (m ≡ insert id r j) × Follows c id r j)

module _ (id : String) (j : MemoryConnectorJournal) (r : ConnectorJournalRecord)
    (f : get id j ≡ some r) where
  failed_from-Writes :
      (s : ConnectorJournalStatus)
      → r.status ≡ s
      → Writes (fails id) id j (kept j (failed_from id j r s))
  unfolding Writes Follows IsOpen failed_from
  failed_from-Writes applied e = inl refl
  failed_from-Writes failed e = inl refl
  failed_from-Writes _ e = inr (_, refl, (r, f, ground (arith, e), refl, refl, λ h. cc h))

  unknown_from-Writes :
      (s : ConnectorJournalStatus)
      → r.status ≡ s
      → Writes (doubts id) id j (kept j (unknown_from id j r s))
  unfolding Writes Follows IsOpen unknown_from
  unknown_from-Writes prepared e = inr (_, refl, (r, f, ground (arith, e), refl, refl, λ h. cc h))
  unknown_from-Writes _ e = inl refl

  applied_from-Writes :
      (sha integrity : String) (s : ConnectorJournalStatus)
      → r.status ≡ s
      → Writes (applies id sha integrity) id j (kept_with j (applied_from id sha integrity j r s))
  unfolding Writes Follows IsOpen applied_from
  applied_from-Writes sha integrity applied e = ground arith
  applied_from-Writes sha integrity failed e = inl refl
  applied_from-Writes sha integrity _ e =
      inr (_, refl, (r, f, ground (arith, e), refl, refl, λ h. ground (arith, eq_iff id id)))

Writes-Changes :
    (c : JournalCall) (id : String) (j : MemoryConnectorJournal)
    → Writes c id j (note c j)
    → Changes c j
unfolding Writes Changes
Writes-Changes c id j (inl h) = inl h
Writes-Changes c id j (inr (r, e, h)) = inr (id, r, e, inr h)

is_unfit-prepared : (r : ConnectorJournalRecord) → is_unfit r ≡ false → r.status ≡ prepared
is_unfit-prepared r h = ground (arith, h)

not_noted : (o : Option ConnectorJournalRecord) → is_noted o ≡ false → o ≡ none
not_noted none h = refl
not_noted (some r) h = cc h

-- A prepared record is new, and it has the status.
prepare-ok :
    (r : ConnectorJournalRecord) (j k : MemoryConnectorJournal)
    → prepare r j ≡ ok k
    → (k ≡ insert r.operation_id r j) × (get r.operation_id j ≡ none) × (r.status ≡ prepared)
unfolding prepare
prepare-ok r j k h =
    let fresh =
      bind-ok (refuse_if (is_noted (get r.operation_id j)) duplicate_prepare)
        (λ _. refuse_if (is_unfit r) invalid_transition >>= λ _. ok (insert r.operation_id r j)) k
        h in
    let fit =
      bind-ok (refuse_if (is_unfit r) invalid_transition) (λ _. ok (insert r.operation_id r j)) k
        fresh.2 in
    (
      cc fit.2,
      not_noted (get r.operation_id j) (refuse_if-ok _ _ _ fresh.1),
      is_unfit-prepared r (refuse_if-ok _ _ _ fit.1),
    )

pub note-Changes : (c : JournalCall) (j : MemoryConnectorJournal) → Changes c j
unfolding Changes Enters note mark_failed mark_unknown mark_applied Writes
note-Changes (prepares r) j = elim (Result-cases (prepare r j)) [
  | inl (k, h) ↦
      let p = prepare-ok r j k h in
      inr (r.operation_id, r, ap (kept j) h ∙ p.0, inl (refl, refl, p.1, p.2))
  | inr (x, h) ↦ inl (rw h refl)
]
note-Changes (applies id sha integrity) j =
    Writes-Changes (applies id sha integrity) id j (elim (Option-cases (get id j)) [
      | inl n ↦ inl (rw n refl)
      | inr (r, f) ↦ rw f (applied_from-Writes id j r f sha integrity r.status refl)
    ])
note-Changes (fails id) j = Writes-Changes (fails id) id j (elim (Option-cases (get id j)) [
  | inl n ↦ inl (rw n refl)
  | inr (r, f) ↦ rw f (failed_from-Writes id j r f r.status refl)
])
note-Changes (doubts id) j = Writes-Changes (doubts id) id j (elim (Option-cases (get id j)) [
  | inl n ↦ inl (rw n refl)
  | inr (r, f) ↦ rw f (unknown_from-Writes id j r f r.status refl)
])
