-- ===== src/Coordinator/Sends.antt =====
-- src/modules/bridge/operation_coordinator.rs: the mark of an operation and the sending of its
-- mutation.
use im_bridge_rs.Common.{
  ℕ, ◌≤◌, ◌+◌, String, false, none, some, List, [], ◌∷◌, ◌≡◌, refl, sym, ◌∙◌, subst, ap, ◌⊎◌, inl,
  inr, arith, Bool-cases, str_eq, eq_iff, if◌then◌else◌,
}
use im_bridge_rs.Errors.{Result, StBridgeError, StResult, ok, err}
use im_bridge_rs.St.{StCommitResult}
use im_bridge_rs.Operation.{generated, received, BridgeOperationStatus, BridgeOperationRecord}
use im_bridge_rs.Operation.Lifecycle.{progress}
use im_bridge_rs.Store.{
  OperationRow, KeyRefRow, World, ◌>>=◌, lift, and_then, cas, mark_committing, set_committing,
  find_operation, update_row, status_eq,
}
use im_bridge_rs.Store.Evolution.{RowPath}
use im_bridge_rs.Store.Invariant.{RowPath-progress}
use im_bridge_rs.Store.Following.{IsIssuedWorld, Follows, catch-ok}
use im_bridge_rs.Store.Uniqueness.{IsKeyed, IsKeyed-Follows}
use im_bridge_rs.Store.CompareAndSet.{cas-ok, cas_blocked, find_operation-Follows}
use im_bridge_rs.Coordinator.{
  Platform, StM, dispatch, app_error, send_marked, bridge_error_from_app,
}
use im_bridge_rs.Coordinator.Landing.{app_error-Follows}

-- How often the log names the operation.
unfoldable pub sends : String → List String → ℕ
sends k [] = 0
sends k (id ∷ log) = let rest = sends k log in if str_eq id k then 1 + rest else rest

-- The row of the operation is marked as committing, or has come further.
abbrev pub IsMarked : String → World → Type 0
IsMarked k w =
    (r : OperationRow) × (find_operation k w.db.operations ≡ some r) × (4 ≤ progress r.status)

pub record IsOnce (k : String) (w : World) : Type 0 where
  pub others : IsIssuedWorld w
  pub keyed : IsKeyed w.db.operations
  pub sent : (sends k w.dispatched ≡ 0) ⊎ ((sends k w.dispatched ≡ 1) × IsMarked k w)

IsMarked-Follows : (k : String) {v w : World} → Follows v w → IsMarked k v → IsMarked k w
IsMarked-Follows k {v} {w} f (r, there, far) =
    let (t, there', path) = find_operation-Follows k v w r f there in
    (t, there', omega (arith, RowPath-progress path, far))

pub IsOnce-Follows : (k : String) {v w : World} → Follows v w → IsOnce k v → IsOnce k w
IsOnce-Follows k {v} {w} f once = record {
  others = f.issued_after;
  keyed = IsKeyed-Follows v w f once.keyed;
  sent = rw f.same_dispatched (elim once.sent [
    | inl unsent ↦ inl unsent
    | inr (one, marked) ↦ inr (one, IsMarked-Follows k f marked)
  ]);
}

not_generated : (s : BridgeOperationStatus) → 4 ≤ progress s → status_eq s generated ≡ false
not_generated received far = cc
not_generated _ far = ground arith

-- A row that is marked is not marked again.
committing_stuck :
    (keys : List KeyRefRow) (now : String) (r t : OperationRow)
    → 4 ≤ progress r.status
    → RowPath r t
    → update_row keys set_committing now t ≡ none
unfolding update_row
committing_stuck keys now r t far path =
    rw (not_generated t.status (omega (arith, RowPath-progress path, far))) refl

committing_marked :
    (keys : List KeyRefRow) (now : String) (r t : OperationRow)
    → update_row keys set_committing now r ≡ some t
    → 4 ≤ progress t.status
unfolding update_row
committing_marked keys now r t e = ground (arith, e)

module _ {V : Type 0} (p : Platform V) (id : String) where
  abbrev mark : StM BridgeOperationRecord
  mark = app_error p id (mark_committing id p.now)

  mark-ok :
      (w : World) (found : BridgeOperationRecord)
      → (mark w).0 ≡ ok found
      → ((cas id set_committing p.now "generated" "committing" w).0 ≡ ok found)
        × ((mark w).1 ≡ (cas id set_committing p.now "generated" "committing" w).1)
  unfolding app_error mark_committing
  mark-ok w found h =
      catch-ok (cas id set_committing p.now "generated" "committing")
        (λ e. lift (err (bridge_error_from_app p.ids id e))) w found (λ e x. cc x) h

  mark-IsMarked :
      (w : World) (found : BridgeOperationRecord)
      → IsIssuedWorld w
      → IsKeyed w.db.operations
      → (mark w).0 ≡ ok found
      → IsMarked id (mark w).1
  mark-IsMarked w found iw k h =
      let (done, w₁) = mark-ok w found h in
      let (keys, r, t, t', moved, there, path) =
        cas-ok id set_committing p.now "generated" "committing" w found refl iw k done in
      (
        t',
        rw w₁ there,
        omega (arith, RowPath-progress path, committing_marked keys p.now r t moved),
      )

  -- If the operation was sent before, its mark fails.
  marked-unsent :
      (w : World) (found : BridgeOperationRecord)
      → IsOnce id w
      → (mark w).0 ≡ ok found
      → sends id w.dispatched ≡ 0
  marked-unsent w found once h =
      let (done, w₁) = mark-ok w found h in
      elim once.sent [
        | inl unsent ↦ unsent
        | inr (one, (r, there, far)) ↦ absurd (
            cas_blocked id set_committing p.now "generated" "committing" w r found once.others
              once.keyed there (λ keys t path. committing_stuck keys p.now r t far path) done)
      ]

  first_send :
      (k : String) (w : World) (found : BridgeOperationRecord)
      → id ≡ k
      → IsOnce k w
      → (mark w).0 ≡ ok found
      → (sends k (mark w).1.dispatched ≡ 0) × IsMarked k (mark w).1
  first_send k w found e once h =
      let once' = subst (λ i. IsOnce i w) (sym e) once in
      subst (λ i. (sends i (mark w).1.dispatched ≡ 0) × IsMarked i (mark w).1) e
        (
          ap (sends id) (app_error-Follows p id w once.others).same_dispatched
              ∙ marked-unsent w found once' h,
          mark-IsMarked w found once.others once.keyed h,
        )

  -- What `send_marked` does at its send.
  sent-IsOnce :
      (k : String) (w : World) (found : BridgeOperationRecord)
      → IsOnce k w
      → (mark w).0 ≡ ok found
      → IsOnce k (record (mark w).1 { dispatched = id ∷ (mark w).1.dispatched })
  unfolding sends
  sent-IsOnce k w found once h =
      let after = IsOnce-Follows k (app_error-Follows p id w once.others) once in
      record {
        others = after.others;
        keyed = after.keyed;
        sent = elim (Bool-cases (str_eq id k)) [
          | inl hit ↦
              let (unsent, marked) = first_send k w found ((eq_iff id k).0 hit) once h in
              rw (hit, unsent) (inr (refl, marked))
          | inr miss ↦ rw miss after.sent
        ];
      }

  pub send_marked-IsOnce :
      (k : String) (answer : StResult StCommitResult)
      (s : StResult StCommitResult → StM StCommitResult) (w : World)
      → ((v : World) → IsIssuedWorld v → Follows v (s answer v).1)
      → IsOnce k w
      → IsOnce k (send_marked p id answer s w).1
  unfolding send_marked dispatch
  send_marked-IsOnce k answer s w settled once = and_then-sent (mark w).0 refl
    where
      and_then-sent :
          (x : Result StBridgeError BridgeOperationRecord)
          → (mark w).0 ≡ x
          → IsOnce k (and_then (x, (mark w).1) (λ _. dispatch id answer >>= s)).1
      and_then-sent (ok found) e =
          let once' = sent-IsOnce k w found once e in
          IsOnce-Follows k (settled _ once'.others) once'
      and_then-sent (err e) h = IsOnce-Follows k (app_error-Follows p id w once.others) once
