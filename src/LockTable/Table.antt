-- ===== src/LockTable/Table.antt =====
-- src/lock_table.rs: the entries of a `LockTable` and its methods, up to the wait for a key's mutex.
-- A mutex is its address. The clones of the `Arc`s outside the table are the handles: the futures
-- that wait in `lock_owned`, and the guards. An instant is a number of nanoseconds.
use mathlib.Core.Option.{get_or}
use im_bridge_rs.Common.{
  ℕ, suc, ◌-◌, String, Bool, false, not, Option, none, some, List, [], ◌∷◌, ◌&&◌, ◌||◌, ltb, leb,
  ◌==◌, if◌then◌else◌, length, str_eq,
}
use im_bridge_rs.Errors.{Result, ok, err}

pub record LockEntry : Type 0 where
  pub lock : ℕ
  pub last_used : ℕ

abbrev pub EntryMap : Type 0
EntryMap = List (String × LockEntry)

pub data AtCapacity : Type 0 where
  at_capacity : AtCapacity

pub record LockTable : Type 0 where
  pub entries : EntryMap
  pub capacity : ℕ
  pub ttl : ℕ

-- `new`
abbrev pub new : ℕ → ℕ → LockTable
new capacity ttl = record { entries = []; capacity = capacity; ttl = ttl }

-- A clone of the `Arc` of a mutex that `acquire` made for a key. It is a guard once the mutex is
-- locked for it, and a waiter before.
pub record Handle : Type 0 where
  pub key : String
  pub lock : ℕ
  pub is_guard : Bool

unfoldable pub clones : ℕ → List Handle → ℕ
clones a [] = 0
clones a (h ∷ hs) = if h.lock == a then suc (clones a hs) else clones a hs

-- `Arc::strong_count` of the `Arc` in an entry, which counts the entry's own
abbrev pub strong_count : List Handle → LockEntry → ℕ
strong_count hs e = suc (clones e.lock hs)

module _ (hs : List Handle) where
  -- the closure of `retain`
  abbrev pub is_retained : ℕ → ℕ → LockEntry → Bool
  is_retained ttl now e = ltb 1 (strong_count hs e) || ltb (now - e.last_used) ttl

  unfoldable pub retain : ℕ → ℕ → EntryMap → EntryMap
  retain ttl now [] = []
  retain ttl now ((k, e) ∷ es) =
      if is_retained ttl now e then (k, e) ∷ retain ttl now es else retain ttl now es

  -- The first of two entries whose `last_used` is least.
  unfoldable pub older :
      String × LockEntry → Option (String × LockEntry) → Option (String × LockEntry)
  older x none = some x
  older x (some y) = if leb x.1.last_used y.1.last_used then some x else some y

  -- `filter` and `min_by_key` in `acquire`
  unfoldable pub victim : EntryMap → Option (String × LockEntry)
  unfolding older
  victim [] = none
  victim ((k, e) ∷ es) = if strong_count hs e == 1 then older (k, e) (victim es) else victim es

  -- `active_count`, on the entries
  unfoldable pub active_count : EntryMap → ℕ
  active_count [] = 0
  active_count ((k, e) ∷ es) =
      if ltb 1 (strong_count hs e) then suc (active_count es) else active_count es

unfoldable pub lock_at : String → EntryMap → Option ℕ
lock_at key [] = none
lock_at key ((k, e) ∷ es) = if str_eq k key then some e.lock else lock_at key es

unfoldable pub contains_key : String → EntryMap → Bool
contains_key key [] = false
contains_key key ((k, e) ∷ es) = str_eq k key || contains_key key es

unfoldable pub remove : String → EntryMap → EntryMap
remove key [] = []
remove key ((k, e) ∷ es) = if str_eq k key then es else (k, e) ∷ remove key es

-- `entry(key).or_insert_with(...)` with a mutex at the address `fresh`, and then `last_used = now`
unfoldable pub touch : String → ℕ → ℕ → EntryMap → EntryMap
touch key now fresh [] = (key, record { lock = fresh; last_used = now }) ∷ []
touch key now fresh ((k, e) ∷ es) =
    if str_eq k key then (k, record e { last_used = now }) ∷ es else (k, e) ∷ touch key now fresh es

-- The entries that leave a place for the key, or none if all are in use.
unfoldable pub make_room : List Handle → ℕ → String → EntryMap → Option EntryMap
make_room hs capacity key es =
    if not (contains_key key es) && leb capacity (length es)
    then elim (victim hs es) [ none ↦ none | some v ↦ some (remove v.0 es) ]
    else some es

-- The part of `acquire` that runs with the table locked: the table after it, and the mutex to wait
-- for.
unfoldable pub acquire : List Handle → String → ℕ → ℕ → LockTable → LockTable × Result AtCapacity ℕ
unfolding make_room
acquire hs key now fresh t =
    let kept = retain hs t.ttl now t.entries in
    if t.capacity == 0 then (t, err at_capacity) else elim (make_room hs t.capacity key kept) [
      | none ↦ (record t { entries = kept }, err at_capacity)
      | some es ↦
          (record t { entries = touch key now fresh es }, ok (get_or (lock_at key es) fresh))
    ]

-- `prune`: the table after it, and how many entries it dropped
unfoldable pub prune : List Handle → ℕ → LockTable → LockTable × ℕ
prune hs now t =
    let kept = retain hs t.ttl now t.entries in
    (record t { entries = kept }, length t.entries - length kept)
