-- ===== src/LockTable/Backing.antt =====
-- src/lock_table.rs: the entry of a key that has a guard or a waiter stays, with its mutex.
use im_bridge_rs.Common.{
  ℕ, zero, suc, ◌≤◌, String, some, List, [], ◌∷◌, ◌≡◌, refl, inl, inr, arith, ◌==◌, Bool-cases,
  Option-cases, All, All-map,
}
use im_bridge_rs.Errors.{Result, ok, err}
use im_bridge_rs.LockTable.{
  AtCapacity, EntryMap, Handle, LockTable, clones, lock_at, retain, make_room, acquire, prune,
  Locks, acquires, is_locked, get_elem?, make_guard, lock_owned, drop, acquired, act,
}
use im_bridge_rs.LockTable.Entries.{
  HasUniqueKeys, InUse, retain-InUse, retain-HasUniqueKeys, touch-InUse, lock_at-touch,
}
use im_bridge_rs.LockTable.Room.{make_room-InUse}

-- The table's entry of a handle's key has the handle's mutex.
abbrev pub IsBacked : EntryMap → List Handle → Type 0
IsBacked es = All (λ h. lock_at h.key es ≡ some h.lock)

AllInUse : List Handle → List Handle → EntryMap → Type 0
AllInUse all hs es = All (λ h. InUse all h.key h.lock es) hs

IsBacked-InUse :
    (all hs : List Handle) (es : EntryMap)
    → ((a : ℕ) → clones a hs ≤ clones a all)
    → IsBacked es hs
    → AllInUse all hs es
unfolding clones AllInUse
IsBacked-InUse all [] es l b = tt
IsBacked-InUse all (h ∷ hs) es l b =
    ((b.0, ground (arith, l h.lock)), IsBacked-InUse all hs es (λ a. ground (arith, l a)) b.1)

acquire-InUse :
    (hs : List Handle) (key : String) (now fresh : ℕ) (t : LockTable) (q : String) (a : ℕ)
    → HasUniqueKeys t.entries
    → InUse hs q a t.entries
    → InUse hs q a (acquire hs key now fresh t).0.entries
unfolding acquire
acquire-InUse hs key now fresh t q a u i =
    let kept = retain hs t.ttl now t.entries in
    let k = retain-InUse hs t.ttl now q a t.entries i in
    elim (Bool-cases (t.capacity == 0)) [
      | inl z ↦ rw z i
      | inr z ↦ elim (Option-cases (make_room hs t.capacity key kept)) [
        | inl e ↦ rw (z, e) k
        | inr (rs, e) ↦
            rw (z, e)
              (touch-InUse hs key now fresh q a rs (
                make_room-InUse hs t.capacity key kept q a
                  (retain-HasUniqueKeys hs t.ttl now t.entries u) e k))
      ]
    ]

acquire-lock_at :
    (hs : List Handle) (key : String) (now fresh : ℕ) (t : LockTable) (a : ℕ)
    → (acquire hs key now fresh t).1 ≡ ok a
    → lock_at key (acquire hs key now fresh t).0.entries ≡ some a
unfolding acquire
acquire-lock_at hs key now fresh t a h =
    elim (Option-cases (make_room hs t.capacity key (retain hs t.ttl now t.entries))) [
      | inl e ↦ absurd (ground (arith, h, e))
      | inr (rs, e) ↦ ground (arith, h, e, lock_at-touch hs key now fresh rs)
    ]

IsBacked-acquired :
    (key : String) (s : Locks) (r : LockTable × Result AtCapacity ℕ)
    → IsBacked r.0.entries s.handles
    → ((a : ℕ) → r.1 ≡ ok a → lock_at key r.0.entries ≡ some a)
    → IsBacked (acquired key s r).table.entries (acquired key s r).handles
unfolding acquired
IsBacked-acquired key s (t, ok a) b l = (l a refl, b)
IsBacked-acquired key s (t, err e) b l = b

pub acquires-IsBacked :
    (key : String) (now : ℕ) (s : Locks)
    → HasUniqueKeys s.table.entries
    → IsBacked s.table.entries s.handles
    → IsBacked (act (acquires key now) s).table.entries (act (acquires key now) s).handles
unfolding act AllInUse
acquires-IsBacked key now s u b =
    IsBacked-acquired key s (acquire s.handles key now s.next s.table)
      (All-map s.handles
        (λ h i. (acquire-InUse s.handles key now s.next s.table h.key h.lock u i).0)
        (IsBacked-InUse s.handles s.handles s.table.entries (λ a. omega arith) b))
      (λ a. acquire-lock_at s.handles key now s.next s.table a)

pub prunes-IsBacked :
    (now : ℕ) (s : Locks)
    → IsBacked s.table.entries s.handles
    → IsBacked (prune s.handles now s.table).0.entries s.handles
unfolding prune AllInUse
prunes-IsBacked now s b =
    All-map s.handles
      (λ h i. (retain-InUse s.handles s.table.ttl now h.key h.lock s.table.entries i).0)
      (IsBacked-InUse s.handles s.handles s.table.entries (λ a. omega arith) b)

make_guard-IsBacked :
    (i : ℕ) (es : EntryMap) (hs : List Handle) → IsBacked es hs → IsBacked es (make_guard i hs)
unfolding make_guard
make_guard-IsBacked i es [] b = tt
make_guard-IsBacked zero es (h ∷ hs) b = b
make_guard-IsBacked (suc i) es (h ∷ hs) b = (b.0, make_guard-IsBacked i es hs b.1)

pub drop-IsBacked :
    (i : ℕ) (es : EntryMap) (hs : List Handle) → IsBacked es hs → IsBacked es (drop i hs)
unfolding drop
drop-IsBacked i es [] b = tt
drop-IsBacked zero es (h ∷ hs) b = b.1
drop-IsBacked (suc i) es (h ∷ hs) b = (b.0, drop-IsBacked i es hs b.1)

pub lock_owned-IsBacked :
    (i : ℕ) (es : EntryMap) (hs : List Handle) → IsBacked es hs → IsBacked es (lock_owned i hs)
unfolding lock_owned
lock_owned-IsBacked i es hs b = elim (Option-cases (get_elem? i hs)) [
  | inl e ↦ rw (lock_owned, e) b
  | inr (h, e) ↦ elim (Bool-cases (is_locked h.lock hs)) [
    | inl k ↦ rw (lock_owned, e, k) b
    | inr k ↦ rw (lock_owned, e, k) (make_guard-IsBacked i es hs b)
  ]
]
