-- ===== src/Store/Following.antt =====
-- The methods of src/modules/bridge/operation_store.rs as sequences of statements.
use im_bridge_rs.Common.{
  ℕ, String, true, List, [], ◌∷◌, ◌++◌, ◌≡◌, refl, sym, ◌∙◌, ap, subst, inl, inr, ◌⊎◌, All,
  All-append, ◌≢◌, not, Bool-cases, ◌==◌,
}
use im_bridge_rs.Errors.{AppResult, Result, ok, err}
use im_bridge_rs.Store.{
  Update, Db, Statement, update_operation, run, run_all, Turn, World, M, begin, execute, fetch,
  find_operation, rows_affected, update_if_id, and_then, ◌>>=◌, or_handle, catch, lift, decode,
  get_operation, assert_cas, update_by_id, cas,
}
use im_bridge_rs.Store.Step.{is_issued}
use im_bridge_rs.Store.Evolution.{IsIssued}

abbrev pub IsIssuedTurn : Turn → Type 0
IsIssuedTurn t = All IsIssued t.others

-- The other tasks run the program too.
abbrev pub IsIssuedWorld : World → Type 0
IsIssuedWorld w = All IsIssuedTurn w.turns

pub record Follows (w w' : World) : Type 0 where
  pub steps : List Statement
  pub issued : All IsIssued steps
  pub reached : w'.db ≡ run_all steps w.db
  pub issued_after : IsIssuedWorld w'
  pub same_dispatched : w'.dispatched ≡ w.dispatched

run_all-append :
    (ss ts : List Statement) (db : Db) → run_all (ss ++ ts) db ≡ run_all ts (run_all ss db)
unfolding run_all
run_all-append [] ts db = refl
run_all-append (s ∷ ss) ts db = run_all-append ss ts (run s db)

pub Follows-refl : (w : World) → IsIssuedWorld w → Follows w w
unfolding run_all
Follows-refl w i = record {
  steps = [];
  issued = tt;
  reached = refl;
  issued_after = i;
  same_dispatched = refl;
}

pub Follows-trans : {u v w : World} → Follows u v → Follows v w → Follows u w
Follows-trans {u} {v} {w} p q = record {
  steps = p.steps ++ q.steps;
  issued = All-append IsIssued p.steps q.steps p.issued q.issued;
  reached = q.reached ∙ ap (run_all q.steps) p.reached ∙ sym (run_all-append p.steps q.steps u.db);
  issued_after = q.issued_after;
  same_dispatched = q.same_dispatched ∙ p.same_dispatched;
}

start-Follows :
    (ts : List Turn) (w : World) → w.turns ≡ ts → IsIssuedWorld w → Follows w (begin w).1
unfolding begin run_all
start-Follows [] w e i = simp (e, begin) (Follows-refl w i)
start-Follows (t ∷ ts) w e i =
    let i' : All IsIssuedTurn (t ∷ ts) = subst (All IsIssuedTurn) e i in
    rw (e, begin)
      (record {
        steps = t.others;
        issued = i'.0;
        reached = refl;
        issued_after = i'.1;
        same_dispatched = refl;
      })

pub begin-Follows : (w : World) → IsIssuedWorld w → Follows w (begin w).1
begin-Follows w i = start-Follows w.turns w refl i

run-Follows :
    (s : Statement) (w : World)
    → IsIssued s
    → IsIssuedWorld w
    → Follows w (record w { db = run s w.db })
unfolding run_all
run-Follows s w i iw = record {
  steps = s ∷ [];
  issued = (i, tt);
  reached = refl;
  issued_after = iw;
  same_dispatched = refl;
}

module _ {A : Type 0} where
  pub execute-Follows :
      (s : Statement) (result : Db → A) (w : World)
      → IsIssued s
      → IsIssuedWorld w
      → Follows w (execute s result w).1
  unfolding execute
  execute-Follows s result w i iw = elim (Bool-cases (begin w).0) [
    | inl bad ↦ rw bad (begin-Follows w iw)
    | inr good ↦ rw good (
        let first = begin-Follows w iw in
        Follows-trans first (run-Follows s (begin w).1 i first.issued_after))
  ]

  pub fetch-Follows :
      (query : Db → AppResult A) (w : World) → IsIssuedWorld w → Follows w (fetch query w).1
  unfolding fetch
  fetch-Follows query w iw = elim (Bool-cases (begin w).0) [
    | inl bad ↦ rw bad (begin-Follows w iw)
    | inr good ↦ rw good (begin-Follows w iw)
  ]

and_then-Follows :
    {E A B : Type 0} (f : A → M E B) (w v : World) (r : Result E A)
    → Follows w v
    → ((a : A) → Follows v (f a v).1)
    → Follows w (and_then (r, v) f).1
and_then-Follows f w v (ok a) p q = Follows-trans p (q a)
and_then-Follows f w v (err e) p q = p

-- A bind follows its first part, and then its second.
pub >>=-Follows :
    {E A B : Type 0} (m : M E A) (f : A → M E B) (w : World)
    → Follows w (m w).1
    → ((a : A) (v : World) → IsIssuedWorld v → Follows v (f a v).1)
    → Follows w (◌>>=◌ m f w).1
>>=-Follows m f w p q = and_then-Follows f w (m w).1 (m w).0 p (λ a. q a (m w).1 p.issued_after)

or_handle-Follows :
    {E F A : Type 0} (h : E → M F A) (w v : World) (r : Result E A)
    → Follows w v
    → ((e : E) → Follows v (h e v).1)
    → Follows w (or_handle (r, v) h).1
or_handle-Follows h w v (ok a) p q = p
or_handle-Follows h w v (err e) p q = Follows-trans p (q e)

-- So does a `catch`.
pub catch-Follows :
    {E F A : Type 0} (m : M E A) (h : E → M F A) (w : World)
    → Follows w (m w).1
    → ((e : E) (v : World) → IsIssuedWorld v → Follows v (h e v).1)
    → Follows w (catch m h w).1
catch-Follows m h w p q = or_handle-Follows h w (m w).1 (m w).0 p (λ e. q e (m w).1 p.issued_after)

pub get_operation-Follows :
    (id : String) (w : World) → IsIssuedWorld w → Follows w (get_operation id w).1
unfolding get_operation
get_operation-Follows id w i = fetch-Follows (λ db. decode (find_operation id db.operations)) w i

pub assert_cas-Follows :
    (affected : ℕ) (id from to : String) (w : World)
    → IsIssuedWorld w
    → Follows w (assert_cas affected id from to w).1
unfolding assert_cas
assert_cas-Follows affected id from to w i = elim (Bool-cases (not (affected == 1))) [
  | inl no_row ↦ rw no_row (Follows-refl w i)
  | inr one ↦ rw one (
      >>=-Follows (get_operation id) _ w (get_operation-Follows id w i)
        (λ a v iv. Follows-refl v iv))
]

update_by_id-Follows :
    (id : String) (u : Update) (now : String) (w : World)
    → is_issued u ≡ true
    → IsIssuedWorld w
    → Follows w (update_by_id id u now w).1
unfolding update_by_id
update_by_id-Follows id u now w iu i =
    execute-Follows (update_operation id u now)
      (λ db. rows_affected (update_if_id db.key_refs id u now) db.operations) w iu i

pub cas-Follows :
    (id : String) (u : Update) (now from to : String) (w : World)
    → is_issued u ≡ true
    → IsIssuedWorld w
    → Follows w (cas id u now from to w).1
unfolding cas
cas-Follows id u now from to w iu i =
    >>=-Follows (update_by_id id u now) _ w (update_by_id-Follows id u now w iu i)
      (λ affected v iv. assert_cas-Follows affected id from to v iv)

-- What a bind that succeeds did.
>>=-ok-cases :
    {E A B : Type 0} (f : A → M E B) (v : World) (r : Result E A) (b : B)
    → (and_then (r, v) f).0 ≡ ok b
    → (a : A) × (r ≡ ok a) × ((f a v).0 ≡ ok b) × ((and_then (r, v) f).1 ≡ (f a v).1)
>>=-ok-cases f v (ok a) b h = (a, refl, h, refl)
>>=-ok-cases f v (err e) b h = absurd (cc h)

pub >>=-ok :
    {E A B : Type 0} (m : M E A) (f : A → M E B) (w : World) (b : B)
    → (◌>>=◌ m f w).0 ≡ ok b
    → (a : A) × ((m w).0 ≡ ok a) × ((f a (m w).1).0 ≡ ok b) × ((◌>>=◌ m f w).1 ≡ (f a (m w).1).1)
>>=-ok m f w b h = >>=-ok-cases f (m w).1 (m w).0 b h

-- A computation that ends in an error never succeeds.
pub refused :
    {E A B : Type 0} (f : A → E) (w : World) (r : Result E A) (b : B)
    → (and_then {B = B} (r, w) (λ a. lift (err (f a)))).0 ≢ ok b
refused f w (ok a) b h = cc h
refused f w (err e) b h = cc h

catch-ok-cases :
    {E F A : Type 0} (h : E → M F A) (v : World) (r : Result E A) (a : A)
    → ((e : E) → (h e v).0 ≢ ok a)
    → (or_handle (r, v) h).0 ≡ ok a
    → (r ≡ ok a) × ((or_handle (r, v) h).1 ≡ v)
catch-ok-cases h v (ok x) a n e = (cc e, refl)
catch-ok-cases h v (err x) a n e = absurd (n x e)

-- A `catch` whose handler never succeeds.
pub catch-ok :
    {E F A : Type 0} (m : M E A) (h : E → M F A) (w : World) (a : A)
    → ((e : E) → (h e (m w).1).0 ≢ ok a)
    → (catch m h w).0 ≡ ok a
    → ((m w).0 ≡ ok a) × ((catch m h w).1 ≡ (m w).1)
catch-ok m h w a n e = catch-ok-cases h (m w).1 (m w).0 a n e

catch-cases-of :
    {E F A : Type 0} (h : E → M F A) (v : World) (r : Result E A) (a : A)
    → (or_handle (r, v) h).0 ≡ ok a
    → ((r ≡ ok a) × ((or_handle (r, v) h).1 ≡ v))
      ⊎ ((e : E) × ((h e v).0 ≡ ok a) × ((or_handle (r, v) h).1 ≡ (h e v).1))
catch-cases-of h v (ok x) a e = inl (cc e, refl)
catch-cases-of h v (err x) a e = inr (x, e, refl)

-- A `catch` that succeeds, by itself or by its handler.
pub catch-cases :
    {E F A : Type 0} (m : M E A) (h : E → M F A) (w : World) (a : A)
    → (catch m h w).0 ≡ ok a
    → (((m w).0 ≡ ok a) × ((catch m h w).1 ≡ (m w).1))
      ⊎ ((e : E) × ((h e (m w).1).0 ≡ ok a) × ((catch m h w).1 ≡ (h e (m w).1).1))
catch-cases m h w a e = catch-cases-of h (m w).1 (m w).0 a e
