-- ===== src/Coordinator/KeySources.antt =====
-- src/modules/bridge/operation_payload.rs: where the key that `for_operation` gives comes from.
use im_bridge_rs.Common.{
  ℕ, ◌<◌, ◌^◌, pos, String, true, false, Option, none, some, ◌≡◌, refl, sym, inl, inr, arith,
  eq_iff, ◌==◌, ltb, is_blank, subst, Bool-cases, Option-cases, ◌∙◌, ap, ◌||◌,
}
use im_bridge_rs.Errors.{AppError, AppResult, ok, ok_or, internal_error}
use im_bridge_rs.Store.{
  KeyRefRow, Db, Statement, ◌>>=◌, rows_inserted, insert_key_ref, run, find_key_ref, World, M,
  begin, fetch, execute, lift, OperationKeyReference, read_key_ref, insert_reference,
  confirm_reference, same_reference, after_insert, u32_try_from, get_operation_key_reference,
  put_operation_key_reference,
}
use im_bridge_rs.Store.Following.{>>=-ok}
use im_bridge_rs.Coordinator.KeyKeeping.{find-add_new}

fetch-ok :
    {A : Type 0} (query : Db → AppResult A) (w : World) (a : A)
    → (fetch query w).0 ≡ ok a
    → query (fetch query w).1.db ≡ ok a
unfolding fetch
fetch-ok query w a h = elim (Bool-cases (begin w).0) [
  | inl f ↦ absurd (cc (rw (f, fetch) at h))
  | inr f ↦ rw (f, fetch) (rw (f, fetch) at h)
]

-- The reference that is read is the operation's.
pub record HasReference (id : String) (r : OperationKeyReference) (db : Db) : Type 0 where
  pub row : KeyRefRow
  pub found : find_key_ref id db.key_refs ≡ some row
  pub readable : read_key_ref (some row) ≡ ok (some r)

read-HasReference :
    (id : String) (r : OperationKeyReference) (db : Db) (o : Option KeyRefRow)
    → find_key_ref id db.key_refs ≡ o
    → read_key_ref o ≡ ok (some r)
    → HasReference id r db
unfolding read_key_ref
read-HasReference id r db none e h = absurd (cc h)
read-HasReference id r db (some row) e h = record { row = row; found = e; readable = h }

pub get-HasReference :
    (id : String) (w : World) (r : OperationKeyReference)
    → (get_operation_key_reference id w).0 ≡ ok (some r)
    → HasReference id r (get_operation_key_reference id w).1.db
unfolding get_operation_key_reference
get-HasReference id w r h =
    let read = λ (db : Db). read_key_ref (find_key_ref id db.key_refs) in
    read-HasReference id r (fetch read w).1.db (find_key_ref id (fetch read w).1.db.key_refs) refl
      (fetch-ok read w (some r) h)

new_row : String → String → ℕ → KeyRefRow
new_row id secret version = record {
  operation_id = id;
  wrapped_secret_id = secret;
  key_version = pos version;
}

new-readable :
    (id secret : String) (version : ℕ)
    → is_blank secret ≡ false
    → (version == 0) ≡ false
    → version < 2 ^ 32
    → read_key_ref (some (new_row id secret version))
      ≡ ok (some (record { wrapped_secret_id = secret; key_version = version }))
unfolding read_key_ref u32_try_from new_row
new-readable id secret version b z l =
    let fits : ltb version (2 ^ 32) ≡ true = ground arith in rw (b, fits, z) refl

execute-ok :
    {A : Type 0} (s : Statement) (result : Db → A) (w : World) (a : A)
    → (execute s result w).0 ≡ ok a
    → (result (begin w).1.db ≡ a) × ((execute s result w).1.db ≡ run s (begin w).1.db)
unfolding execute
execute-ok s result w a h = elim (Bool-cases (begin w).0) [
  | inl f ↦ absurd (cc (rw (f, execute) at h))
  | inr f ↦ (cc (rw (f, execute) at h), rw (f, execute) refl)
]

new-HasReference :
    (id secret : String) (version : ℕ) (db : Db)
    → is_blank secret ≡ false
    → (version == 0) ≡ false
    → version < 2 ^ 32
    → find_key_ref id db.key_refs ≡ none
    → HasReference id
        (record { wrapped_secret_id = secret; key_version = version })
        (run (insert_key_ref (new_row id secret version)) db)
unfolding run new_row
new-HasReference id secret version db b z l h = record {
  row = new_row id secret version;
  found = find-add_new db.key_refs (new_row id secret version) h;
  readable = new-readable id secret version b z l;
}

insert-HasReference :
    (id secret : String) (version n : ℕ) (w : World)
    → is_blank secret ≡ false
    → (version == 0) ≡ false
    → version < 2 ^ 32
    → (insert_reference id secret version w).0 ≡ ok n
    → (n == 1) ≡ true
    → HasReference id
        (record { wrapped_secret_id = secret; key_version = version })
        (insert_reference id secret version w).1.db
unfolding insert_reference new_row
insert-HasReference id secret version n w b z l h o =
    let s = insert_key_ref (new_row id secret version) in
    let (rows, reached) = execute-ok s (λ db. rows_inserted (find_key_ref id db.key_refs)) w n h in
    let before = (begin w).1.db in
    elim (Option-cases (find_key_ref id before.key_refs)) [
      | inl e ↦
          subst (HasReference id (record { wrapped_secret_id = secret; key_version = version }))
            (sym reached) (new-HasReference id secret version before b z l e)
      | inr (old, e) ↦ absurd (ground (arith, rows, e, o))
    ]

same_reference-ok :
    (secret : String) (version : ℕ) (r : OperationKeyReference)
    → same_reference secret version r ≡ ok tt
    → r ≡ record { wrapped_secret_id = secret; key_version = version }
unfolding same_reference
same_reference-ok secret version r h = ground (arith, h, eq_iff r.wrapped_secret_id secret)

confirmed : String → ℕ → Option OperationKeyReference → M AppError (Unit {0})
confirmed secret version found =
    lift (ok_or found (internal_error "operation key reference disappeared after conflict"))
    >>= λ existing. lift (same_reference secret version existing)

confirmed-some :
    (secret : String) (version : ℕ) (o : Option OperationKeyReference) (w : World)
    → (confirmed secret version o w).0 ≡ ok tt
    → o ≡ some (record { wrapped_secret_id = secret; key_version = version })
unfolding confirmed
confirmed-some secret version none w h = absurd (cc h)
confirmed-some secret version (some r) w h = ap some (same_reference-ok secret version r h)

confirmed-world :
    (secret : String) (version : ℕ) (o : Option OperationKeyReference) (w : World)
    → (confirmed secret version o w).1 ≡ w
unfolding confirmed
confirmed-world secret version none w = refl
confirmed-world secret version (some r) w = refl

confirm-HasReference :
    (id secret : String) (version : ℕ) (w : World)
    → (confirm_reference id secret version w).0 ≡ ok tt
    → HasReference id
        (record { wrapped_secret_id = secret; key_version = version })
        (confirm_reference id secret version w).1.db
unfolding confirm_reference confirmed
confirm-HasReference id secret version w h =
    let (found, h₁, h₂, end) =
      >>=-ok (get_operation_key_reference id) (confirmed secret version) w tt h in
    let v = (get_operation_key_reference id w).1 in
    let r : OperationKeyReference = record { wrapped_secret_id = secret; key_version = version } in
    let there = get-HasReference id w r (h₁ ∙ ap ok (confirmed-some secret version found v h₂)) in
    subst (λ (x : World). HasReference id r x.db)
      (sym (end ∙ confirmed-world secret version found v)) there

after_insert-HasReference :
    (id secret : String) (version n : ℕ) (w : World)
    → ((n == 1) ≡ true
        → HasReference id (record { wrapped_secret_id = secret; key_version = version }) w.db)
    → (after_insert id secret version n w).0 ≡ ok tt
    → HasReference id
        (record { wrapped_secret_id = secret; key_version = version })
        (after_insert id secret version n w).1.db
unfolding after_insert
after_insert-HasReference id secret version n w there h = elim (Bool-cases (n == 1)) [
  | inl one ↦ rw (after_insert, one) (there one)
  | inr more ↦
      rw (after_insert, more)
        (confirm-HasReference id secret version w (rw (after_insert, more) at h))
]

-- A reference that is put is the operation's.
pub put-HasReference :
    (id secret : String) (version : ℕ) (w : World)
    → version < 2 ^ 32
    → (put_operation_key_reference id secret version w).0 ≡ ok tt
    → (is_blank secret ≡ false)
      × HasReference id
          (record { wrapped_secret_id = secret; key_version = version })
          (put_operation_key_reference id secret version w).1.db
unfolding put_operation_key_reference
put-HasReference id secret version w l h =
    elim (Bool-cases (is_blank id || is_blank secret || version == 0)) [
      | inl bad ↦ absurd (cc (rw (bad, put_operation_key_reference) at h))
      | inr good ↦
          let b : is_blank secret ≡ false = ground (arith, good) in
          let z : (version == 0) ≡ false = ground (arith, good) in
          let (n, h₁, h₂, end) =
            >>=-ok (insert_reference id secret version) (after_insert id secret version) w tt
              (rw (good, put_operation_key_reference) at h) in
          let v = (insert_reference id secret version w).1 in
          let r : OperationKeyReference = record {
            wrapped_secret_id = secret;
            key_version = version;
          } in
          let reached : (put_operation_key_reference id secret version w).1
              ≡ (after_insert id secret version n v).1 =
            rw (good, put_operation_key_reference) end in
          (
            b,
            subst (λ (x : World). HasReference id r x.db) (sym reached)
                (after_insert-HasReference id secret version n v
                  (insert-HasReference id secret version n w b z l h₁) h₂),
          )
    ]
