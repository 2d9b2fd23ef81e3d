-- ===== src/LockTable/Entries.antt =====
-- src/lock_table.rs: what the methods do to the entries of one key.
use mathlib.Core.Option.{get_or}
use im_bridge_rs.Common.{
  if◌then◌else◌, ◌==◌, ℕ, suc, ◌≤◌, ◌<◌, String, true, false, Option, none, some, List, [], ◌∷◌,
  ◌≡◌, ◌≢◌, refl, ◌⊎◌, inl, inr, arith, length, eq_iff, Bool-cases,
}
use im_bridge_rs.LockTable.{
  LockEntry, EntryMap, Handle, clones, strong_count, retain, older, victim, active_count, lock_at,
  contains_key, remove, touch,
}

-- No two entries have one key.
abbrev pub HasUniqueKeys : EntryMap → Type 0
HasUniqueKeys [] = Unit
HasUniqueKeys ((k, e) ∷ es) = (contains_key k es ≡ false) × HasUniqueKeys es

-- The entry of the key is in use.
abbrev pub InUse : List Handle → String → ℕ → EntryMap → Type 0
InUse hs key a es = (lock_at key es ≡ some a) × (0 < clones a hs)

pub contains-lock_at :
    (key : String) (es : EntryMap) {a : ℕ} → lock_at key es ≡ some a → contains_key key es ≡ true
unfolding lock_at contains_key
contains-lock_at key [] h = cc
contains-lock_at key ((k, e) ∷ es) {a} h = ground (arith, contains-lock_at key es {a = a})

pub lock_at-contains :
    (key : String) (es : EntryMap) → contains_key key es ≡ false → lock_at key es ≡ none
unfolding lock_at contains_key
lock_at-contains key [] h = refl
lock_at-contains key ((k, e) ∷ es) h = ground (arith, lock_at-contains key es)

module _ (hs : List Handle) (ttl now : ℕ) where
  pub retain-InUse :
      (key : String) (a : ℕ) (es : EntryMap)
      → InUse hs key a es
      → InUse hs key a (retain hs ttl now es)
  unfolding lock_at retain
  retain-InUse key a [] h = h
  retain-InUse key a ((k, e) ∷ es) h = ground (arith, retain-InUse key a es)

  retain-contains :
      (key : String) (es : EntryMap)
      → contains_key key es ≡ false
      → contains_key key (retain hs ttl now es) ≡ false
  unfolding contains_key retain
  retain-contains key [] h = refl
  retain-contains key ((k, e) ∷ es) h = ground (arith, retain-contains key es)

  pub retain-HasUniqueKeys :
      (es : EntryMap) → HasUniqueKeys es → HasUniqueKeys (retain hs ttl now es)
  unfolding retain
  retain-HasUniqueKeys [] u = tt
  retain-HasUniqueKeys ((k, e) ∷ es) u =
      ground (arith, retain-contains k es, retain-HasUniqueKeys es)

  pub length-retain : (es : EntryMap) → length (retain hs ttl now es) ≤ length es
  unfolding retain
  length-retain [] = omega arith
  length-retain ((k, e) ∷ es) = ground (arith, length-retain es)

module _ (key : String) where
  pub remove-InUse :
      (hs : List Handle) (q : String) (a : ℕ) (es : EntryMap)
      → q ≢ key
      → InUse hs q a es
      → InUse hs q a (remove key es)
  unfolding lock_at remove
  remove-InUse hs q a [] d h = h
  remove-InUse hs q a ((k, e) ∷ es) d h =
      ground (arith, eq_iff k key, eq_iff k q, remove-InUse hs q a es d)

  remove-contains :
      (q : String) (es : EntryMap)
      → contains_key q es ≡ false
      → contains_key q (remove key es) ≡ false
  unfolding contains_key remove
  remove-contains q [] h = refl
  remove-contains q ((k, e) ∷ es) h = ground (arith, remove-contains q es)

  pub remove-HasUniqueKeys : (es : EntryMap) → HasUniqueKeys es → HasUniqueKeys (remove key es)
  unfolding remove
  remove-HasUniqueKeys [] u = tt
  remove-HasUniqueKeys ((k, e) ∷ es) u =
      ground (arith, remove-contains k es, remove-HasUniqueKeys es)

  pub length-remove :
      (es : EntryMap) → contains_key key es ≡ true → suc (length (remove key es)) ≡ length es
  unfolding contains_key remove
  length-remove [] h = cc
  length-remove ((k, e) ∷ es) h = ground (arith, length-remove es)

-- An entry that no handle uses.
abbrev pub IsIdleAt : List Handle → EntryMap → String → Type 0
IsIdleAt hs es q = (a : ℕ) × ((lock_at q es ≡ some a) × (clones a hs ≡ 0))

older-cases :
    (hs : List Handle) (x : String × LockEntry) (o : Option (String × LockEntry))
    (v : String × LockEntry)
    → older hs x o ≡ some v
    → (v ≡ x) ⊎ (o ≡ some v)
unfolding older
older-cases hs x none v h = inl (ground arith)
older-cases hs x (some y) v h = ground arith

older-some :
    (hs : List Handle) (x : String × LockEntry) (o : Option (String × LockEntry))
    → older hs x o ≢ none
unfolding older
older-some hs x none = λ h. cc h
older-some hs x (some y) = λ h. ground (arith, h)

module _ (hs : List Handle) where
  first-IsIdleAt :
      (k : String) (e : LockEntry) (es : EntryMap)
      → (strong_count hs e == 1) ≡ true
      → IsIdleAt hs ((k, e) ∷ es) k
  unfolding lock_at
  first-IsIdleAt k e es h = (e.lock, (ground (arith, eq_iff k k), ground arith))

  later-IsIdleAt :
      (k q : String) (e : LockEntry) (es : EntryMap)
      → contains_key k es ≡ false
      → IsIdleAt hs es q
      → IsIdleAt hs ((k, e) ∷ es) q
  unfolding lock_at
  later-IsIdleAt k q e es u (a, (h, z)) =
      (a, (ground (arith, eq_iff k q, contains-lock_at q es {a = a}), z))

  pub victim-IsIdleAt :
      (es : EntryMap) (v : String × LockEntry)
      → HasUniqueKeys es
      → victim hs es ≡ some v
      → IsIdleAt hs es v.0
  unfolding victim
  victim-IsIdleAt [] v u h = absurd (cc h)
  victim-IsIdleAt ((k, e) ∷ es) v u h = elim (Bool-cases (strong_count hs e == 1)) [
    | inl i ↦ elim (older-cases hs (k, e) (victim hs es) v (ground (arith, h, i))) [
      | inl here ↦ rw here (first-IsIdleAt k e es i)
      | inr later ↦ later-IsIdleAt k v.0 e es u.0 (victim-IsIdleAt es v u.1 later)
    ]
    | inr i ↦ later-IsIdleAt k v.0 e es u.0 (victim-IsIdleAt es v u.1 (ground (arith, h, i)))
  ]

  pub victim-none : (es : EntryMap) → victim hs es ≡ none → active_count hs es ≡ length es
  unfolding victim active_count
  victim-none [] h = refl
  victim-none ((k, e) ∷ es) h =
      ground (arith, h, older-some hs (k, e) (victim hs es), victim-none es)

  pub active_count-length : (es : EntryMap) → active_count hs es ≤ length es
  unfolding active_count
  active_count-length [] = omega arith
  active_count-length ((k, e) ∷ es) = ground (arith, active_count-length es)

  pub victim-some :
      (es : EntryMap) {v : String × LockEntry}
      → victim hs es ≡ some v
      → active_count hs es < length es
  unfolding victim active_count
  victim-some [] h = absurd (cc h)
  victim-some ((k, e) ∷ es) {v} h =
      ground (arith, h, active_count-length es, victim-some es {v = v})

module _ (hs : List Handle) (key : String) (now fresh : ℕ) where
  pub touch-InUse :
      (q : String) (a : ℕ) (es : EntryMap) → InUse hs q a es → InUse hs q a (touch key now fresh es)
  unfolding lock_at touch
  touch-InUse q a [] h = absurd (cc h.0)
  touch-InUse q a ((k, e) ∷ es) h = ground (arith, touch-InUse q a es)

  touch-contains :
      (q : String) (es : EntryMap)
      → q ≢ key
      → contains_key q es ≡ false
      → contains_key q (touch key now fresh es) ≡ false
  unfolding contains_key touch
  touch-contains q [] d h = ground (arith, eq_iff key q)
  touch-contains q ((k, e) ∷ es) d h = ground (arith, touch-contains q es)

  pub touch-HasUniqueKeys :
      (es : EntryMap) → HasUniqueKeys es → HasUniqueKeys (touch key now fresh es)
  unfolding touch contains_key
  touch-HasUniqueKeys [] u = (refl, tt)
  touch-HasUniqueKeys ((k, e) ∷ es) u =
      ground (arith, eq_iff k key, touch-contains k es, touch-HasUniqueKeys es)

  pub length-touch :
      (es : EntryMap)
      → length (touch key now fresh es)
        ≡ (if contains_key key es then length es else suc (length es))
  unfolding contains_key touch
  length-touch [] = refl
  length-touch ((k, e) ∷ es) = ground (arith, length-touch es)

  pub lock_at-touch :
      (es : EntryMap) → lock_at key (touch key now fresh es) ≡ some (get_or (lock_at key es) fresh)
  unfolding lock_at touch
  lock_at-touch [] = ground (arith, eq_iff key key)
  lock_at-touch ((k, e) ∷ es) = ground (arith, lock_at-touch es)
