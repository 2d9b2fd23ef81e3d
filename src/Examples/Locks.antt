-- ===== src/Examples/Locks.antt =====
-- The theorems on src/lock_table.rs, on two tasks that use one key of a table of two entries.
use im_bridge_rs.Common.{◌≤◌, List, [], ◌∷◌, ◌≡◌, ◌↔◌, ◌⊎◌, false, arith, length}
use im_bridge_rs.Errors.{err}
use im_bridge_rs.LockTable.{
  at_capacity, Action, acquires, locks, drops, prunes, Locks, empty_locks, act_all, acquire,
  contains_key, active_count, retain,
}
use im_bridge_rs.LockTable.Entries.{HasUniqueKeys}
use im_bridge_rs.LockTable.Bounds.{table_bounded, refused_iff, act_all-IsBounded}
use im_bridge_rs.LockTable.Exclusion.{guards, mutual_exclusion}

-- Both tasks wait for the key "a", the later one locks it, and other keys come and go.
abbrev contended : List Action
contended =
    acquires "a" 1
    ∷ acquires "a" 2
    ∷ locks 0
    ∷ acquires "b" 3
    ∷ drops 0
    ∷ acquires "c" 4
    ∷ prunes 5
    ∷ locks 2
    ∷ []

abbrev after_contention : Locks
after_contention = act_all contended (empty_locks 2 10)

table_bounded_example :
    (length after_contention.table.entries ≤ 2) × HasUniqueKeys after_contention.table.entries
table_bounded_example = table_bounded contended 2 10

mutual_exclusion_example : guards "a" after_contention.handles ≤ 1
mutual_exclusion_example = mutual_exclusion contended 2 10 "a"

refused_iff_example :
    ((acquire after_contention.handles "d" 6 9 after_contention.table).1 ≡ err at_capacity) ↔ (
      (after_contention.table.capacity ≡ 0)
      ⊎ ((contains_key "d" (
              retain after_contention.handles after_contention.table.ttl 6
                after_contention.table.entries)
            ≡ false)
          × (active_count after_contention.handles (
                retain after_contention.handles after_contention.table.ttl 6
                  after_contention.table.entries)
              ≡ after_contention.table.capacity)))
refused_iff_example =
    refused_iff after_contention.handles "d" 6 9 after_contention.table (
      act_all-IsBounded contended (empty_locks 2 10)
        (record { bounded = omega arith; unique = tt }))
