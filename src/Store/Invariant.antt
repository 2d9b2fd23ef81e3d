-- ===== src/Store/Invariant.antt =====
-- What holds of an operation's row in every reachable table of
-- src/modules/bridge/operation_store.rs.
use im_bridge_rs.Common.{
  ◌≤◌, String, true, false, some, List, [], ◌∷◌, ◌≡◌, refl, ◌⊎◌, inl, inr, arith, All, ◌∙◌, str_eq,
  Bool-cases, subst, ap,
}
use im_bridge_rs.Operation.{
  committed, delivered, OperationCommitState, is_terminal, can_transition_to,
}
use im_bridge_rs.Operation.Lifecycle.{progress, transition_progress, can_transition_to-left}
use im_bridge_rs.Store.{OperationRow, Db, Statement, run_all, find_operation}
use im_bridge_rs.Store.Step.{RowStep, SameIdentity, IsConsistent}
use im_bridge_rs.Store.Evolution.{
  RowPath, here, next, RowPath-identity, IsBorn, born, Evolves, IsIssued, run_all-Evolves,
}

RowPath-IsConsistent : {r s : OperationRow} → RowPath r s → IsConsistent r → IsConsistent s
RowPath-IsConsistent here c = c
RowPath-IsConsistent (next p st) c = st.consistent (RowPath-IsConsistent p c)

born-IsConsistent : {s : OperationRow} → IsBorn s → IsConsistent s
born-IsConsistent (born r f p) = RowPath-IsConsistent p (ground (arith, f))

All-born-IsConsistent : (rs : List OperationRow) → All IsBorn rs → All IsConsistent rs
All-born-IsConsistent [] b = tt
All-born-IsConsistent (r ∷ rs) b = (born-IsConsistent b.0, All-born-IsConsistent rs b.1)

abbrev pub empty_db : Db
empty_db = record { operations = []; key_refs = []; leases = [] }

-- After any interleaving of statements on an empty database, each operation's status and commit
-- state fit: what is committed or delivered is applied, a conflict is not applied, a failure is
-- not started or not applied, a commit can be unknown only while committing, and every other
-- status is not started.
pub run_all-IsConsistent :
    (ss : List Statement) → All IsIssued ss → All IsConsistent (run_all ss empty_db).operations
run_all-IsConsistent ss i =
    All-born-IsConsistent (run_all ss empty_db).operations (run_all-Evolves ss empty_db i)

step_progress : (r s : OperationRow) → RowStep r s → progress r.status ≤ progress s.status
step_progress r s st = ground (arith, transition_progress.0 r.status s.status, st.moves)

step_terminal : (r s : OperationRow) → RowStep r s → is_terminal r.status ≡ false
unfolding is_terminal
step_terminal r s st = ground (arith, can_transition_to-left r.status s.status, st.moves)

pub terminal_frozen : {r s : OperationRow} → RowPath r s → is_terminal r.status ≡ true → s ≡ r
terminal_frozen here h = refl
terminal_frozen (next {s = m} {t = s} p st) h =
    absurd (cc (terminal_frozen p h, step_terminal m s st))

pub RowPath-progress : {r s : OperationRow} → RowPath r s → progress r.status ≤ progress s.status
RowPath-progress here = omega arith
RowPath-progress {r} (next {s = m} {t = s} p st) =
    omega (arith, RowPath-progress p, step_progress m s st)

-- The mutation of the operation is known to be applied.
abbrev pub IsLanded : OperationRow → Type 0
IsLanded r =
    ((r.status ≡ committed) ⊎ (r.status ≡ delivered))
    × (r.commit_state ≡ OperationCommitState.applied)

step_landed :
    (r s : OperationRow)
    → RowStep r s
    → IsLanded r
    → IsLanded s × (s.connector_result_json ≡ r.connector_result_json)
unfolding can_transition_to
step_landed r s st l = ground (arith, st.moves, st.settled)

pub RowPath-IsLanded :
    {r s : OperationRow}
    → RowPath r s
    → IsLanded r
    → IsLanded s × (s.connector_result_json ≡ r.connector_result_json)
RowPath-IsLanded here l = (l, refl)
RowPath-IsLanded (next {s = m} {t = s} p st) l =
    let (l', same) = RowPath-IsLanded p l in
    let (l'', same') = step_landed m s st l' in (l'', same' ∙ same)

-- A row is found at its id for ever, updated along a path.
pub find_operation-Evolves :
    (id : String) (rs ts : List OperationRow) (r : OperationRow)
    → Evolves rs ts
    → find_operation id rs ≡ some r
    → (t : OperationRow) × (find_operation id ts ≡ some t) × RowPath r t
unfolding find_operation
find_operation-Evolves id [] ts r e h = cc
find_operation-Evolves id (x ∷ rs) [] r e h = absurd e
find_operation-Evolves id (x ∷ rs) (y ∷ ts) r e h = elim (Bool-cases (str_eq x.id id)) [
  | inl hit ↦ (
    y,
    rw ((RowPath-identity e.0).same_id, hit) refl,
    subst (λ q. RowPath q y) (ground (arith, hit, h)) e.0,
  )
  | inr miss ↦
      let (t, found, p) = find_operation-Evolves id rs ts r e.1 (ground (arith, miss, h)) in
      (t, rw ((RowPath-identity e.0).same_id, miss) found, p)
]

module _ (ss : List Statement) (db : Db) (id : String) (r : OperationRow) (issued : All IsIssued ss)
    (found : find_operation id db.operations ≡ some r) where
  later : (t : OperationRow) × (find_operation id (run_all ss db).operations ≡ some t) × RowPath r t
  later =
      find_operation-Evolves id db.operations (run_all ss db).operations r
        (run_all-Evolves ss db issued) found

  -- Whatever statements follow, an operation stays in the table, under the same identity, and its
  -- status never goes back.
  pub find_operation-run_all :
      (t : OperationRow) × (find_operation id (run_all ss db).operations ≡ some t)
      × SameIdentity r t
      × (progress r.status ≤ progress t.status)
  find_operation-run_all = let (t, e, p) = later in (t, e, RowPath-identity p, RowPath-progress p)

  -- Whatever statements follow, an operation in a terminal status is not written again.
  pub terminal-run_all :
      is_terminal r.status ≡ true → find_operation id (run_all ss db).operations ≡ some r
  terminal-run_all h = let (t, e, p) = later in e ∙ ap some (terminal_frozen p h)

  -- Whatever statements follow, an operation whose mutation is recorded as applied stays committed
  -- or delivered, applied, and keeps the connector's result.
  pub landed-run_all :
      IsLanded r
      → (t : OperationRow) × (find_operation id (run_all ss db).operations ≡ some t)
        × IsLanded t
        × (t.connector_result_json ≡ r.connector_result_json)
  landed-run_all l =
      let (t, e, p) = later in let (l', same) = RowPath-IsLanded p l in (t, e, l', same)
