-- ===== src/Journal/Earned.antt =====
-- src/modules/bridge/connector_journal.rs: what a replay that is answered "already applied" rests on.
use im_bridge_rs.Common.{
  String, Bool, true, false, some, List, [], ◌∷◌, ◌≡◌, refl, sym, ◌∙◌, subst, ◌⊎◌, inl, inr, ◌&&◌,
  ◌||◌, str_eq, eq_iff, arith, Bool-cases, Option-cases,
}
use im_bridge_rs.Errors.{ok}
use im_bridge_rs.Journal.{
  ConnectorJournalStatus, prepared, applied, ConnectorJournalRecord, already_applied,
  MemoryConnectorJournal, get, insert, replay, replay_found, outcome_of,
}
use im_bridge_rs.Journal.Calls.{
  JournalCall, prepares, note, note_all, some-injective, applies_to, get-insert_same,
  get-insert_other, Enters, Follows, Changes, note-Changes,
}

abbrev prepares_as : String → String → String → JournalCall → Bool
prepares_as id locator digest (prepares r) =
    str_eq r.operation_id id && str_eq r.locator_hash locator && str_eq r.mutation_digest digest
prepares_as id locator digest _ = false

abbrev any_applies_to : String → List JournalCall → Bool
any_applies_to id [] = false
any_applies_to id (c ∷ cs) = applies_to id c || any_applies_to id cs

-- One of the calls prepares the operation with the locator and the digest, and a later one marks it
-- as applied.
unfoldable pub is_earned : String → String → String → List JournalCall → Bool
is_earned id locator digest [] = false
is_earned id locator digest (c ∷ cs) =
    (prepares_as id locator digest c && any_applies_to id cs) || is_earned id locator digest cs

IsSame : ConnectorJournalRecord → ConnectorJournalRecord → Type 0
IsSame r o = (r.locator_hash ≡ o.locator_hash) × (r.mutation_digest ≡ o.mutation_digest)

-- Where a record comes from that is found after a call.
Comes : JournalCall → String → ConnectorJournalRecord → MemoryConnectorJournal → Type 0
Comes c id r j =
    ((o : ConnectorJournalRecord) × (get id j ≡ some o)
      × IsSame r o
      × (r.status ≡ applied → (o.status ≡ applied) ⊎ (applies_to id c ≡ true)))
    ⊎ ((prepares_as id r.locator_hash r.mutation_digest c ≡ true) × (r.status ≡ prepared))

same_call :
    (c : JournalCall) (q : String) (r : ConnectorJournalRecord) (j : MemoryConnectorJournal)
    → Enters c q r j ⊎ Follows c q r j
    → Comes c q r j
unfolding Enters Follows Comes IsSame
same_call c q r j (inl (e, i, n, p)) = inr (
  rw e (
      ground (
        arith,
        i,
        eq_iff r.operation_id q,
        eq_iff r.locator_hash r.locator_hash,
        eq_iff r.mutation_digest r.mutation_digest,
      )),
  p,
)
same_call c q r j (inr (o, f, free, l, d, w)) = inl (o, f, (l, d), λ h. inr (w h))

note-Comes :
    (c : JournalCall) (j : MemoryConnectorJournal) (id : String) (r : ConnectorJournalRecord)
    → get id (note c j) ≡ some r
    → Comes c id r j
unfolding Changes Comes IsSame
note-Comes c j id r f = elim (note-Changes c j) [
  | inl e ↦ inl (r, rw e at f, (refl, refl), λ h. inl h)
  | inr (q, x, e, why) ↦ elim (Bool-cases (str_eq q id)) [
    | inl same ↦
        let i : q ≡ id = ground (arith, same, eq_iff q id) in
        let found = subst (λ k. get k (insert q x j) ≡ some x) i (get-insert_same q x j) in
        subst (λ k. Comes c k r j) i
          (subst (λ y. Comes c q y j) (some-injective (sym found ∙ (rw e at f)))
            (same_call c q x j why))
    | inr other ↦
        inl (r, sym (get-insert_other id q x j other) ∙ (rw e at f), (refl, refl), λ h. inl h)
  ]
]

later :
    (id : String) (o o' : ConnectorJournalRecord) (c : JournalCall) (cs : List JournalCall)
    → (o.status ≡ applied) ⊎ (any_applies_to id cs ≡ true)
    → (o.status ≡ applied → (o'.status ≡ applied) ⊎ (applies_to id c ≡ true))
    → (o'.status ≡ applied) ⊎ (any_applies_to id (c ∷ cs) ≡ true)
later id o o' c cs (inl h) w = elim (w h) [ inl a ↦ inl a | inr b ↦ inr (ground (arith, b)) ]
later id o o' c cs (inr h) w = inr (ground (arith, h))

note_all-Comes :
    (cs : List JournalCall) (j : MemoryConnectorJournal) (id : String) (r : ConnectorJournalRecord)
    → get id (note_all cs j) ≡ some r
    → r.status ≡ applied
    → ((o : ConnectorJournalRecord) × (get id j ≡ some o)
        × IsSame r o
        × ((o.status ≡ applied) ⊎ (any_applies_to id cs ≡ true)))
      ⊎ (is_earned id r.locator_hash r.mutation_digest cs ≡ true)
unfolding note_all is_earned IsSame Comes
note_all-Comes [] j id r f a = inl (r, f, (refl, refl), inl a)
note_all-Comes (c ∷ cs) j id r f a = elim (note_all-Comes cs (note c j) id r f a) [
  | inr h ↦ inr (ground (arith, h))
  | inl (o, g, s, w) ↦ elim (note-Comes c j id o g) [
    | inl (o', g', s', w') ↦ inl (o', g', (s.0 ∙ s'.0, s.1 ∙ s'.1), later id o o' c cs w w')
    | inr (p, new) ↦
        let here : prepares_as id r.locator_hash r.mutation_digest c ≡ true =
          rw (s.0) (rw (s.1) p) in
        inr (ground (arith, here, w, new))
  ]
]

outcome_of-already_applied :
    (s : ConnectorJournalStatus) → outcome_of s ≡ already_applied → s ≡ applied
outcome_of-already_applied applied h = refl
outcome_of-already_applied _ h = cc h

replay_found-already_applied :
    (locator digest : String) (r : ConnectorJournalRecord)
    → replay_found locator digest (some r) ≡ ok already_applied
    → (r.locator_hash ≡ locator) × (r.mutation_digest ≡ digest) × (r.status ≡ applied)
unfolding replay_found
replay_found-already_applied locator digest r h = (
  ground (arith, h, eq_iff r.locator_hash locator),
  ground (arith, h, eq_iff r.mutation_digest digest),
  outcome_of-already_applied r.status (ground (arith, h)),
)

not_in_empty : (id : String) (r : ConnectorJournalRecord) → get id [] ≡ some r → ⊥
unfolding get
not_in_empty id r h = cc h

-- A replay that says that the operation is applied already, with a locator and a digest, after any
-- calls of an empty journal, rests on a call that prepared the operation with that locator and that
-- digest, and on a later one that marks it as applied.
pub already_applied_earned :
    (id locator digest : String) (cs : List JournalCall)
    → replay id locator digest (note_all cs []) ≡ ok already_applied
    → is_earned id locator digest cs ≡ true
unfolding replay
already_applied_earned id locator digest cs h = elim (Option-cases (get id (note_all cs []))) [
  | inl n ↦ absurd (cc (rw (n, replay_found) at h))
  | inr (r, f) ↦
      let (l, d, a) = replay_found-already_applied locator digest r (rw f at h) in
      elim (note_all-Comes cs [] id r f a) [
        | inl (o, g, s, w) ↦ absurd (not_in_empty id o g)
        | inr e ↦
            subst (λ t. is_earned id t digest cs ≡ true) l
              (subst (λ t. is_earned id r.locator_hash t cs ≡ true) d e)
      ]
]
