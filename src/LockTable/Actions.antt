-- ===== src/LockTable/Actions.antt =====
-- src/lock_table.rs, src/modules/bridge/locator_locks.rs, src/modules/telegram/locks.rs and
-- src/modules/chat/locks.rs: a table and all the tasks that use it, in any order.
use im_bridge_rs.Common.{
  ℕ, zero, suc, String, Bool, true, false, Option, none, some, List, [], ◌∷◌, ◌||◌, ◌&&◌, ◌==◌,
  if◌then◌else◌,
}
use im_bridge_rs.Errors.{Result, ok, err}
use im_bridge_rs.LockTable.Table.{LockTable, Handle, AtCapacity, new, acquire, prune}

-- `next` is the address of the next mutex.
pub record Locks : Type 0 where
  pub table : LockTable
  pub handles : List Handle
  pub next : ℕ

-- The mutex at an address is locked.
unfoldable pub is_locked : ℕ → List Handle → Bool
is_locked a [] = false
is_locked a (h ∷ hs) = (h.is_guard && h.lock == a) || is_locked a hs

unfoldable pub get_elem? : ℕ → List Handle → Option Handle
get_elem? i [] = none
get_elem? zero (h ∷ hs) = some h
get_elem? (suc i) (h ∷ hs) = get_elem? i hs

unfoldable pub make_guard : ℕ → List Handle → List Handle
make_guard i [] = []
make_guard zero (h ∷ hs) = record h { is_guard = true } ∷ hs
make_guard (suc i) (h ∷ hs) = h ∷ make_guard i hs

-- `lock_owned` of the waiter at an index: it becomes a guard if the mutex is free.
unfoldable pub lock_owned : ℕ → List Handle → List Handle
unfolding get_elem?
lock_owned i hs = elim (get_elem? i hs) [
  | none ↦ hs
  | some h ↦ if is_locked h.lock hs then hs else make_guard i hs
]

-- The handle at an index is dropped: a guard at its end, or a waiter that is cancelled.
unfoldable pub drop : ℕ → List Handle → List Handle
drop i [] = []
drop zero (h ∷ hs) = hs
drop (suc i) (h ∷ hs) = h ∷ drop i hs

pub data Action : Type 0 where
  -- the key, and the instant
  acquires : String → ℕ → Action
  locks : ℕ → Action
  drops : ℕ → Action
  prunes : ℕ → Action

unfoldable pub acquired : String → Locks → LockTable × Result AtCapacity ℕ → Locks
acquired key s (t, ok a) = record {
  table = t;
  handles = record { key = key; lock = a; is_guard = false } ∷ s.handles;
  next = suc s.next;
}
acquired key s (t, err e) = record s { table = t }

unfoldable pub act : Action → Locks → Locks
unfolding acquired
act (acquires key now) s = acquired key s (acquire s.handles key now s.next s.table)
act (locks i) s = record s { handles = lock_owned i s.handles }
act (drops i) s = record s { handles = drop i s.handles }
act (prunes now) s = record s { table = (prune s.handles now s.table).0 }

-- The actions, in their order.
unfoldable pub act_all : List Action → Locks → Locks
unfolding act
act_all [] s = s
act_all (a ∷ actions) s = act_all actions (act a s)

abbrev pub empty_locks : ℕ → ℕ → Locks
empty_locks capacity ttl = record { table = new capacity ttl; handles = []; next = 0 }
