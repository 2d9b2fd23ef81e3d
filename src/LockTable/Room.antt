-- ===== src/LockTable/Room.antt =====
-- src/lock_table.rs: how `acquire` makes room for a key.
use im_bridge_rs.Common.{
  ℕ, ◌≤◌, ◌<◌, String, true, false, not, none, some, List, ◌≡◌, ◌⊎◌, inl, inr, arith, ◌&&◌, leb,
  length, Bool-cases, Option-cases, subst,
}
use im_bridge_rs.LockTable.{
  EntryMap, Handle, victim, active_count, contains_key, remove, touch, make_room,
}
use im_bridge_rs.LockTable.Entries.{
  HasUniqueKeys, InUse, IsIdleAt, contains-lock_at, remove-InUse, remove-HasUniqueKeys,
  length-remove, victim-IsIdleAt, victim-none, victim-some, length-touch,
}

-- Either nothing is removed, or the entry of a key that is idle is, from a full table.
data Made (hs : List Handle) (capacity : ℕ) (key : String) (es : EntryMap) : EntryMap → Type 0 where
  as_it_is : (contains_key key es ≡ true) ⊎ (length es < capacity) → Made hs capacity key es es
  evicted :
      (q : String)
      → contains_key key es ≡ false
      → IsIdleAt hs es q
      → Made hs capacity key es (remove q es)

module _ (hs : List Handle) (capacity : ℕ) (key : String) (es : EntryMap) where
  made :
      {rs : EntryMap}
      → HasUniqueKeys es
      → make_room hs capacity key es ≡ some rs
      → Made hs capacity key es rs
  unfolding make_room
  made {rs} u h = elim (Bool-cases (not (contains_key key es) && leb capacity (length es))) [
    | inl full ↦ elim (Option-cases (victim hs es)) [
      | inl e ↦ absurd (ground (arith, h, full, e))
      | inr (v, e) ↦
          subst (Made hs capacity key es) (ground (arith, h, full, e))
            (evicted v.0 (ground (arith, full)) (victim-IsIdleAt hs es v u e))
    ]
    | inr room ↦
        subst (Made hs capacity key es) (ground (arith, h, room)) (as_it_is (ground (arith, room)))
  ]

  pub full_of_none :
      make_room hs capacity key es ≡ none
      → (contains_key key es ≡ false) × ((capacity ≤ length es) × (active_count hs es ≡ length es))
  unfolding make_room
  full_of_none h = ground (arith, h, victim-none hs es)

  pub none_of_full :
      contains_key key es ≡ false
      → capacity ≤ length es
      → active_count hs es ≡ length es
      → make_room hs capacity key es ≡ none
  unfolding make_room
  none_of_full c l f = elim (Option-cases (victim hs es)) [
    | inl e ↦ ground (arith, c, l, e)
    | inr (v, e) ↦ absurd (omega (arith, f, victim-some hs es e))
  ]

  Made-InUse :
      {rs : EntryMap} (q : String) (a : ℕ)
      → Made hs capacity key es rs
      → InUse hs q a es
      → InUse hs q a rs
  Made-InUse q a (as_it_is r) i = i
  Made-InUse q a (evicted k c (b, (e, z))) i =
      remove-InUse k hs q a es (λ same. ground (arith, same, e, z, i)) i

  pub make_room-InUse :
      {rs : EntryMap} (q : String) (a : ℕ)
      → HasUniqueKeys es
      → make_room hs capacity key es ≡ some rs
      → InUse hs q a es
      → InUse hs q a rs
  make_room-InUse q a u h i = Made-InUse q a (made u h) i

  Made-HasUniqueKeys :
      {rs : EntryMap} → Made hs capacity key es rs → HasUniqueKeys es → HasUniqueKeys rs
  Made-HasUniqueKeys (as_it_is r) u = u
  Made-HasUniqueKeys (evicted k c i) u = remove-HasUniqueKeys k es u

  pub make_room-HasUniqueKeys :
      {rs : EntryMap} → HasUniqueKeys es → make_room hs capacity key es ≡ some rs → HasUniqueKeys rs
  make_room-HasUniqueKeys u h = Made-HasUniqueKeys (made u h) u

  Made-length :
      {rs : EntryMap} (now fresh : ℕ)
      → Made hs capacity key es rs
      → length es ≤ capacity
      → length (touch key now fresh rs) ≤ capacity
  Made-length now fresh (as_it_is r) l = ground (arith, l, r, length-touch hs key now fresh es)
  Made-length now fresh (evicted k c (b, (e, z))) l = ground (
    arith,
    l,
    length-touch hs key now fresh (remove k es),
    length-remove k es (contains-lock_at k es {a = b} e),
  )

  pub length-make_room :
      {rs : EntryMap} (now fresh : ℕ)
      → HasUniqueKeys es
      → make_room hs capacity key es ≡ some rs
      → length es ≤ capacity
      → length (touch key now fresh rs) ≤ capacity
  length-make_room now fresh u h l = Made-length now fresh (made u h) l
