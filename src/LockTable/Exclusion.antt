-- ===== src/LockTable/Exclusion.antt =====
-- src/lock_table.rs, src/modules/bridge/locator_locks.rs, src/modules/telegram/locks.rs and
-- src/modules/chat/locks.rs: the guards of one key.
use im_bridge_rs.Common.{
  ℕ, zero, suc, ◌≤◌, String, false, none, some, List, [], ◌∷◌, ◌≡◌, refl, inl, inr, arith, ◌==◌,
  ◌&&◌, if◌then◌else◌, Option-cases, str_eq, eq_iff,
}
use im_bridge_rs.Errors.{Result, ok, err}
use im_bridge_rs.LockTable.{
  AtCapacity, EntryMap, Handle, LockTable, lock_at, acquire, Locks, Action, acquires, locks, drops,
  prunes, is_locked, get_elem?, make_guard, lock_owned, drop, acquired, act, act_all, empty_locks,
}
use im_bridge_rs.LockTable.Bounds.{IsBounded, act-IsBounded}
use im_bridge_rs.LockTable.Backing.{
  IsBacked, acquires-IsBacked, prunes-IsBacked, drop-IsBacked, lock_owned-IsBacked,
}

-- How many guards of the key there are.
unfoldable pub guards : String → List Handle → ℕ
guards key [] = 0
guards key (h ∷ hs) = if h.is_guard && str_eq h.key key then suc (guards key hs) else guards key hs

-- How many guards of the mutex at an address there are.
unfoldable pub owners : ℕ → List Handle → ℕ
owners a [] = 0
owners a (h ∷ hs) = if h.is_guard && h.lock == a then suc (owners a hs) else owners a hs

owners-drop : (i a : ℕ) (hs : List Handle) → owners a (drop i hs) ≤ owners a hs
unfolding owners drop
owners-drop i a [] = omega arith
owners-drop zero a (h ∷ hs) = ground arith
owners-drop (suc i) a (h ∷ hs) = ground (arith, owners-drop i a hs)

owners_free : (a : ℕ) (hs : List Handle) → is_locked a hs ≡ false → owners a hs ≡ 0
unfolding owners is_locked
owners_free a [] f = refl
owners_free a (h ∷ hs) f = ground (arith, owners_free a hs)

owners-make_guard :
    (i a : ℕ) (hs : List Handle) {h : Handle}
    → get_elem? i hs ≡ some h
    → owners a (make_guard i hs) ≤ (if h.lock == a then suc (owners a hs) else owners a hs)
unfolding owners make_guard get_elem?
owners-make_guard i a [] e = absurd (cc e)
owners-make_guard zero a (g ∷ hs) {h} e = ground (arith, e)
owners-make_guard (suc i) a (g ∷ hs) {h} e = ground (arith, owners-make_guard i a hs {h = h})

owners-lock_owned : (i a : ℕ) (hs : List Handle) → owners a hs ≤ 1 → owners a (lock_owned i hs) ≤ 1
unfolding lock_owned
owners-lock_owned i a hs l = elim (Option-cases (get_elem? i hs)) [
  | inl e ↦ ground (arith, e, l)
  | inr (h, e) ↦ ground (arith, e, l, owners_free h.lock hs, owners-make_guard i a hs e)
]

guards-owners :
    (key : String) (a : ℕ) (es : EntryMap) (hs : List Handle)
    → lock_at key es ≡ some a
    → IsBacked es hs
    → guards key hs ≤ owners a hs
unfolding guards owners
guards-owners key a es [] e b = omega arith
guards-owners key a es (h ∷ hs) e b =
    ground (arith, e, b.0, eq_iff h.key key, guards-owners key a es hs e b.1)

guards_absent :
    (key : String) (es : EntryMap) (hs : List Handle)
    → lock_at key es ≡ none
    → IsBacked es hs
    → guards key hs ≡ 0
unfolding guards
guards_absent key es [] e b = refl
guards_absent key es (h ∷ hs) e b =
    ground (arith, e, b.0, eq_iff h.key key, guards_absent key es hs e b.1)

pub record IsSafe (s : Locks) : Type 0 where
  pub table : IsBounded s.table
  pub backed : IsBacked s.table.entries s.handles
  pub exclusive : (a : ℕ) → owners a s.handles ≤ 1

owners-acquired :
    (key : String) (s : Locks) (r : LockTable × Result AtCapacity ℕ) (a : ℕ)
    → owners a (acquired key s r).handles ≡ owners a s.handles
unfolding acquired owners
owners-acquired key s (t, ok b) a = refl
owners-acquired key s (t, err e) a = refl

act-IsSafe : (x : Action) (s : Locks) → IsSafe s → IsSafe (act x s)
unfolding act
act-IsSafe (acquires key now) s i = record {
  table = act-IsBounded (acquires key now) s i.table;
  backed = acquires-IsBacked key now s i.table.unique i.backed;
  exclusive = λ a.
      omega
        (arith, owners-acquired key s (acquire s.handles key now s.next s.table) a, i.exclusive a);
}
act-IsSafe (locks j) s i = record {
  table = act-IsBounded (locks j) s i.table;
  backed = lock_owned-IsBacked j s.table.entries s.handles i.backed;
  exclusive = λ a. owners-lock_owned j a s.handles (i.exclusive a);
}
act-IsSafe (drops j) s i = record {
  table = act-IsBounded (drops j) s i.table;
  backed = drop-IsBacked j s.table.entries s.handles i.backed;
  exclusive = λ a. omega (arith, owners-drop j a s.handles, i.exclusive a);
}
act-IsSafe (prunes now) s i = record {
  table = act-IsBounded (prunes now) s i.table;
  backed = prunes-IsBacked now s i.backed;
  exclusive = i.exclusive;
}

act_all-IsSafe : (actions : List Action) (s : Locks) → IsSafe s → IsSafe (act_all actions s)
unfolding act_all
act_all-IsSafe [] s i = i
act_all-IsSafe (x ∷ actions) s i = act_all-IsSafe actions (act x s) (act-IsSafe x s i)

empty_locks-IsSafe : (capacity ttl : ℕ) → IsSafe (empty_locks capacity ttl)
unfolding owners
empty_locks-IsSafe capacity ttl = record {
  table = record { bounded = omega arith; unique = tt };
  backed = tt;
  exclusive = λ a. omega arith;
}

-- In any order of the calls of `acquire` and `prune`, of the locking of mutexes and of the ends of
-- guards and waiters, on a table that starts empty, there is at most one guard of any key, although
-- entries are evicted and made again.
pub mutual_exclusion :
    (actions : List Action) (capacity ttl : ℕ) (key : String)
    → guards key (act_all actions (empty_locks capacity ttl)).handles ≤ 1
mutual_exclusion actions capacity ttl key =
    let s = act_all actions (empty_locks capacity ttl) in
    let i = act_all-IsSafe actions (empty_locks capacity ttl) (empty_locks-IsSafe capacity ttl) in
    elim (Option-cases (lock_at key s.table.entries)) [
      | inl e ↦ omega (arith, guards_absent key s.table.entries s.handles e i.backed)
      | inr (a, e) ↦
          omega (arith, guards-owners key a s.table.entries s.handles e i.backed, i.exclusive a)
    ]
