-- ===== src/LockTable/Bounds.antt =====
-- src/lock_table.rs: the size of the table, and when it refuses a key.
use im_bridge_rs.Common.{
  ℕ, ◌≤◌, String, false, List, [], ◌∷◌, ◌≡◌, ◌↔◌, ◌⊎◌, ◌==◌, refl, ◌∙◌, inl, inr, arith, length,
  Bool-cases, Option-cases,
}
use im_bridge_rs.Errors.{Result, ok, err}
use im_bridge_rs.LockTable.{
  Handle, LockTable, at_capacity, active_count, contains_key, retain, make_room, acquire, prune,
  Locks, Action, acquires, locks, drops, prunes, acquired, AtCapacity, act, act_all, empty_locks,
}
use im_bridge_rs.LockTable.Entries.{
  HasUniqueKeys, retain-HasUniqueKeys, length-retain, touch-HasUniqueKeys, active_count-length,
}
use im_bridge_rs.LockTable.Room.{
  make_room-HasUniqueKeys, length-make_room, full_of_none, none_of_full,
}

-- At most `capacity` entries, with different keys.
pub record IsBounded (t : LockTable) : Type 0 where
  pub bounded : length t.entries ≤ t.capacity
  pub unique : HasUniqueKeys t.entries

acquire-IsBounded :
    (hs : List Handle) (key : String) (now fresh : ℕ) (t : LockTable)
    → IsBounded t
    → IsBounded (acquire hs key now fresh t).0
unfolding acquire
acquire-IsBounded hs key now fresh t b =
    let kept = retain hs t.ttl now t.entries in
    let l = length-retain hs t.ttl now t.entries in
    let u = retain-HasUniqueKeys hs t.ttl now t.entries b.unique in
    elim (Bool-cases (t.capacity == 0)) [
      | inl z ↦ rw z b
      | inr z ↦ elim (Option-cases (make_room hs t.capacity key kept)) [
        | inl e ↦ rw (z, e) (record { bounded = omega (arith, l, b.bounded); unique = u })
        | inr (rs, e) ↦
            rw (z, e)
              (record {
                bounded =
                    length-make_room hs t.capacity key kept now fresh u e
                      (omega (arith, l, b.bounded));
                unique =
                    touch-HasUniqueKeys hs key now fresh rs
                      (make_room-HasUniqueKeys hs t.capacity key kept u e);
              })
      ]
    ]

prune-IsBounded :
    (hs : List Handle) (now : ℕ) (t : LockTable) → IsBounded t → IsBounded (prune hs now t).0
unfolding prune
prune-IsBounded hs now t b = record {
  bounded = omega (arith, length-retain hs t.ttl now t.entries, b.bounded);
  unique = retain-HasUniqueKeys hs t.ttl now t.entries b.unique;
}

acquired-table :
    (key : String) (w : Locks) (r : LockTable × Result AtCapacity ℕ)
    → (acquired key w r).table ≡ r.0
unfolding acquired
acquired-table key w (t, ok a) = refl
acquired-table key w (t, err e) = refl

pub act-IsBounded : (a : Action) (w : Locks) → IsBounded w.table → IsBounded (act a w).table
unfolding act
act-IsBounded (acquires key now) w b =
    rw (acquired-table key w (acquire w.handles key now w.next w.table))
      (acquire-IsBounded w.handles key now w.next w.table b)
act-IsBounded (locks i) w b = b
act-IsBounded (drops i) w b = b
act-IsBounded (prunes now) w b = prune-IsBounded w.handles now w.table b

pub act_all-IsBounded :
    (actions : List Action) (w : Locks) → IsBounded w.table → IsBounded (act_all actions w).table
unfolding act_all
act_all-IsBounded [] w b = b
act_all-IsBounded (a ∷ actions) w b = act_all-IsBounded actions (act a w) (act-IsBounded a w b)

acquire-capacity :
    (hs : List Handle) (key : String) (now fresh : ℕ) (t : LockTable)
    → (acquire hs key now fresh t).0.capacity ≡ t.capacity
unfolding acquire
acquire-capacity hs key now fresh t =
    elim (Option-cases (make_room hs t.capacity key (retain hs t.ttl now t.entries))) [
      | inl e ↦ ground (arith, e)
      | inr (rs, e) ↦ ground (arith, e)
    ]

act-capacity : (a : Action) (w : Locks) → (act a w).table.capacity ≡ w.table.capacity
unfolding act prune
act-capacity (acquires key now) w =
    rw (acquired-table key w (acquire w.handles key now w.next w.table))
      (acquire-capacity w.handles key now w.next w.table)
act-capacity (locks i) w = refl
act-capacity (drops i) w = refl
act-capacity (prunes now) w = refl

act_all-capacity :
    (actions : List Action) (w : Locks) → (act_all actions w).table.capacity ≡ w.table.capacity
unfolding act_all
act_all-capacity [] w = refl
act_all-capacity (a ∷ actions) w = act_all-capacity actions (act a w) ∙ act-capacity a w

-- In any order of the calls of `acquire` and `prune`, of the locking of mutexes and of the ends of
-- guards and waiters, a table that starts empty has at most `capacity` entries, with different keys.
pub table_bounded :
    (actions : List Action) (capacity ttl : ℕ)
    → (length (act_all actions (empty_locks capacity ttl)).table.entries ≤ capacity)
      × HasUniqueKeys (act_all actions (empty_locks capacity ttl)).table.entries
table_bounded actions capacity ttl =
    let b =
      act_all-IsBounded actions (empty_locks capacity ttl)
        (record { bounded = omega arith; unique = tt }) in
    (omega (arith, b.bounded, act_all-capacity actions (empty_locks capacity ttl)), b.unique)

-- In a table of at most `capacity` entries with different keys, `acquire` refuses a key exactly if
-- the capacity is zero, or, after the entries that are idle and too old are dropped, the key is
-- absent and there are `capacity` entries, all in use.
pub refused_iff :
    (hs : List Handle) (key : String) (now fresh : ℕ) (t : LockTable)
    → IsBounded t
    → ((acquire hs key now fresh t).1 ≡ err at_capacity) ↔ (
        (t.capacity ≡ 0)
        ⊎ ((contains_key key (retain hs t.ttl now t.entries) ≡ false)
            × (active_count hs (retain hs t.ttl now t.entries) ≡ t.capacity)))
unfolding acquire
refused_iff hs key now fresh t b =
    let kept = retain hs t.ttl now t.entries in
    let l = length-retain hs t.ttl now t.entries in
    elim (Option-cases (make_room hs t.capacity key kept)) [
      | inl e ↦ ground (arith, e, l, b.bounded, full_of_none hs t.capacity key kept e)
      | inr (rs, e) ↦
          ground (
            arith,
            e,
            l,
            b.bounded,
            active_count-length hs kept,
            none_of_full hs t.capacity key kept,
          )
    ]
