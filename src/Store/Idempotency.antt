-- ===== src/Store/Idempotency.antt =====
-- `claim_operation` of src/modules/bridge/operation_store.rs: what a granted claim means for later
-- ones.
use im_bridge_rs.Common.{
  String, true, false, some, List, [], ◌∷◌, ◌++◌, ◌≡◌, ◌≢◌, sym, subst, inl, inr, arith, All,
  Bool-cases, eq_iff, ==ℤ_iff,
}
use im_bridge_rs.Errors.{ok, err, ok_or, internal_error}
use im_bridge_rs.Operation.{BridgeOperationRecord}
use im_bridge_rs.Store.{
  OperationRow, Db, Statement, insert_operation, run, run_all, World, Turn, begin, execute,
  is_taken, same_claim, find_by_claim, ClaimOperationRequest, claim_failed, claimed_row, claim_id,
  read_claimed, existing_claim, duplicate_error, duplicate, claim_operation, ◌>>=◌, lift,
  get_operation,
}
use im_bridge_rs.Store.Evolution.{Evolves, IsIssued, run_all-Evolves, RowPath-identity}
use im_bridge_rs.Store.Following.{
  IsIssuedTurn, IsIssuedWorld, Follows, begin-Follows, get_operation-Follows, Follows-refl, refused,
  catch-Follows, >>=-Follows,
}

abbrev Claimed : ClaimOperationRequest → List OperationRow → Type 0
Claimed q rs =
    (r : OperationRow) × (find_by_claim q.bot_id q.telegram_update_id q.operation_kind rs ≡ some r)

-- A claim stays taken: the columns that it consists of are never written.
Claimed-Evolves :
    (q : ClaimOperationRequest) (rs ts : List OperationRow)
    → Evolves rs ts
    → Claimed q rs
    → Claimed q ts
unfolding find_by_claim
Claimed-Evolves q [] ts e (r, h) = absurd (cc h)
Claimed-Evolves q (x ∷ rs) [] e h = absurd e
Claimed-Evolves q (x ∷ rs) (y ∷ ts) e (r, h) =
    elim (Bool-cases (same_claim q.bot_id q.telegram_update_id q.operation_kind x)) [
      | inl hit ↦ (y, ground (arith, hit, RowPath-identity e.0))
      | inr miss ↦
          let (t, found) = Claimed-Evolves q rs ts e.1 (r, ground (arith, miss, h)) in
          (t, ground (arith, miss, found, RowPath-identity e.0))
    ]

Claimed-run_all :
    (q : ClaimOperationRequest) (ss : List Statement) (db : Db)
    → All IsIssued ss
    → Claimed q db.operations
    → Claimed q (run_all ss db).operations
Claimed-run_all q ss db i =
    Claimed-Evolves q db.operations (run_all ss db).operations (run_all-Evolves ss db i)

Claimed-Follows :
    (q : ClaimOperationRequest) (w w' : World)
    → Follows w w'
    → Claimed q w.db.operations
    → Claimed q w'.db.operations
Claimed-Follows q w w' f c =
    subst (λ (d : Db). Claimed q d.operations) (sym f.reached)
      (Claimed-run_all q f.steps w.db f.issued c)

Claimed-is_taken :
    (q : ClaimOperationRequest) (id now : String) (rs : List OperationRow) (r : OperationRow)
    → find_by_claim q.bot_id q.telegram_update_id q.operation_kind rs ≡ some r
    → is_taken (claimed_row q id now) rs ≡ true
unfolding is_taken find_by_claim
Claimed-is_taken q id now [] r h = absurd (cc h)
Claimed-is_taken q id now (x ∷ rs) r h = ground (arith, h, Claimed-is_taken q id now rs r)

Claimed-append :
    (q : ClaimOperationRequest) (id now : String) (rs : List OperationRow)
    → Claimed q (rs ++ claimed_row q id now ∷ [])
unfolding find_by_claim
Claimed-append q id now [] = (
  claimed_row q id now,
  ground (
    arith,
    eq_iff q.bot_id q.bot_id,
    eq_iff q.operation_kind q.operation_kind,
    ==ℤ_iff q.telegram_update_id q.telegram_update_id,
  ),
)
Claimed-append q id now (x ∷ rs) =
    elim (Bool-cases (same_claim q.bot_id q.telegram_update_id q.operation_kind x)) [
      | inl hit ↦ (x, ground (arith, hit))
      | inr miss ↦ let (t, found) = Claimed-append q id now rs in (t, ground (arith, miss, found))
    ]

-- The branch of a unique violation always ends in an error.
pub duplicate-ne-ok :
    (q : ClaimOperationRequest) (w : World) (r : BridgeOperationRecord) → (duplicate q w).0 ≢ ok r
unfolding duplicate
duplicate-ne-ok q w r = refused (duplicate_error q) (existing_claim q w).1 (existing_claim q w).0 r

-- The world after the INSERT.
abbrev pub inserted : ClaimOperationRequest → String → String → World → World
inserted q new_id now w = record w {
  db = run (insert_operation (claimed_row q (claim_id q new_id) now)) w.db;
}

-- The claim of an operation that is in the table is never granted.
Claimed-ne-ok :
    (q : ClaimOperationRequest) (new_id now : String) (w : World) (r : BridgeOperationRecord)
    → IsIssuedWorld w
    → Claimed q w.db.operations
    → (claim_operation q new_id now w).0 ≢ ok r
unfolding claim_operation execute
Claimed-ne-ok q new_id now w r i c h = elim (Bool-cases (begin w).0) [
  | inl bad ↦ absurd (cc (rw (bad, claim_operation, execute) at h))
  | inr good ↦
      let first = begin-Follows w i in
      let (s, found) = Claimed-Follows q w (begin w).1 first c in
      let taken = Claimed-is_taken q (claim_id q new_id) now (begin w).1.db.operations s found in
      duplicate-ne-ok q (inserted q new_id now (begin w).1) r
        (rw (good, claim_operation, execute, taken) at h)
]

inserted-Claimed :
    (q : ClaimOperationRequest) (new_id now : String) (w : World)
    → is_taken (claimed_row q (claim_id q new_id) now) w.db.operations ≡ false
    → Claimed q (inserted q new_id now w).db.operations
unfolding run
inserted-Claimed q new_id now w new =
    rw new (Claimed-append q (claim_id q new_id) now w.db.operations)

read_claimed-Follows : (id : String) (w : World) → IsIssuedWorld w → Follows w (read_claimed id w).1
unfolding read_claimed
read_claimed-Follows id w i =
    catch-Follows
      (get_operation id >>= λ found.
        lift (ok_or found (internal_error "claimed operation missing after insert")))
      (λ e. lift (err (claim_failed e))) w
      (>>=-Follows (get_operation id)
        (λ found. lift (ok_or found (internal_error "claimed operation missing after insert"))) w
        (get_operation-Follows id w i) (λ a v iv. Follows-refl v iv))
      (λ e v iv. Follows-refl v iv)

-- A granted claim is in the table afterwards.
ok-Claimed :
    (q : ClaimOperationRequest) (new_id now : String) (w : World) (r : BridgeOperationRecord)
    → IsIssuedWorld w
    → (claim_operation q new_id now w).0 ≡ ok r
    → Claimed q (claim_operation q new_id now w).1.db.operations
unfolding claim_operation execute
ok-Claimed q new_id now w r i h = elim (Bool-cases (begin w).0) [
  | inl bad ↦ absurd (cc (rw (bad, claim_operation, execute) at h))
  | inr good ↦
      elim (Bool-cases
        (is_taken (claimed_row q (claim_id q new_id) now) (begin w).1.db.operations)) [
          | inl taken ↦ absurd (
              duplicate-ne-ok q (inserted q new_id now (begin w).1) r
                (rw (good, claim_operation, execute, taken) at h))
          | inr new ↦
              let there = inserted-Claimed q new_id now (begin w).1 new in
              let w' = inserted q new_id now (begin w).1 in
              rw (good, claim_operation, execute, new)
                (Claimed-Follows q w' (read_claimed (claim_id q new_id) w').1
                  (read_claimed-Follows (claim_id q new_id) w' (begin-Follows w i).issued_after)
                  there)
        ]
]

-- Two requests with the same bot, update and kind.
abbrev pub SameClaim : ClaimOperationRequest → ClaimOperationRequest → Type 0
SameClaim p q =
    (p.bot_id ≡ q.bot_id)
    × (p.telegram_update_id ≡ q.telegram_update_id)
    × (p.operation_kind ≡ q.operation_kind)

same_Claimed :
    (p q : ClaimOperationRequest) (rs : List OperationRow)
    → SameClaim p q
    → Claimed p rs
    → Claimed q rs
same_Claimed p q rs (b, u, k) (r, e) = (r, rw (← b, ← u, ← k) e)

-- If `claim_operation` grants a claim then, after any further statements of any tasks, it grants
-- no other request for the same bot, Telegram update and operation kind, whatever happens at its
-- own statements.
pub claim_once :
    (p q : ClaimOperationRequest) (new_id now new_id' now' : String) (w : World)
    (r r' : BridgeOperationRecord) (ss : List Statement) (ts : List Turn)
    → SameClaim p q
    → IsIssuedWorld w
    → (claim_operation p new_id now w).0 ≡ ok r
    → All IsIssued ss
    → All IsIssuedTurn ts
    → let w' = (claim_operation p new_id now w).1 in
      (claim_operation q new_id' now' (record w' { db = run_all ss w'.db; turns = ts })).0 ≢ ok r'
claim_once p q new_id now new_id' now' w r r' ss ts same i granted is its =
    Claimed-ne-ok q new_id' now' _ r' its
      (same_Claimed p q _ same (Claimed-run_all p ss _ is (ok-Claimed p new_id now w r i granted)))
