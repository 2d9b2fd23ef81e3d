-- ===== src/Delivery/Deadlines.antt =====
-- src/modules/telegram/delivery_queue.rs: a deadline that the server has set is kept.
use im_bridge_rs.Common.{
  ℕ, ◌<◌, ◌≤◌, ℤ, ==ℤ_iff, String, true, Option, none, some, List, [], ◌∷◌, ◌≡◌, refl, subst, ◌⊎◌,
  inl, inr, All, eq_iff, ltb, arith, Bool-cases, Option-cases,
}
use im_bridge_rs.Delivery.{
  DeliveryKey, same_key, Cooldowns, find_until, later_of, raise, retain_after, bot_key, chat_key,
  until_of, set_cooldown_secs,
}

pub record CooldownCall : Type 0 where
  pub at : ℕ
  pub bot_id : String
  pub chat_id : ℤ
  pub retry_after_secs : ℕ

-- A later deadline than `u` for the key, or none and the time is past `u`.
unfoldable pub IsKept : DeliveryKey → ℕ → ℕ → Cooldowns → Type 0
IsKept k u t s = (u ≤ t) ⊎ ((v : ℕ) × (find_until k s ≡ some v) × (u ≤ v))

same_key_refl : (k : DeliveryKey) → same_key k k ≡ true
unfolding same_key
same_key_refl k = elim (Option-cases k.chat_id) [
  | inl n ↦ rw n (ground (arith, eq_iff k.bot_id k.bot_id))
  | inr (c, e) ↦ rw e (ground (arith, eq_iff k.bot_id k.bot_id, ==ℤ_iff c c))
]

pub raise-keeps :
    (now until : ℕ) (q k : DeliveryKey) (s : Cooldowns) (v : ℕ)
    → find_until k s ≡ some v
    → (w : ℕ) × (find_until k (raise now until q s) ≡ some w) × (v ≤ w)
unfolding find_until raise
raise-keeps now until q k [] v h = absurd (cc h)
raise-keeps now until q k ((a, u) ∷ s) v h = elim (Bool-cases (same_key a q)) [
  | inl e ↦ elim (Bool-cases (same_key a k)) [
    | inl m ↦ (later_of u until, rw e (rw m refl), ground (arith, h, m))
    | inr m ↦ (v, rw e (rw m (rw m at h)), ground arith)
  ]
  | inr e ↦ elim (Bool-cases (same_key a k)) [
    | inl m ↦ (v, rw e (rw m (rw m at h)), ground arith)
    | inr m ↦ let (w, g, l) = raise-keeps now until q k s v (rw m at h) in (w, rw e (rw m g), l)
  ]
]

pub raise-sets :
    (now until : ℕ) (k : DeliveryKey) (s : Cooldowns)
    → (w : ℕ) × (find_until k (raise now until k s) ≡ some w) × (until ≤ w)
unfolding find_until raise
raise-sets now until k [] = (later_of now until, rw (same_key_refl k) refl, ground arith)
raise-sets now until k ((a, u) ∷ s) = elim (Bool-cases (same_key a k)) [
  | inl m ↦ (later_of u until, rw m (rw m refl), ground arith)
  | inr m ↦ let (w, g, l) = raise-sets now until k s in (w, rw m (rw m g), l)
]

retain-keeps :
    (now : ℕ) (k : DeliveryKey) (s : Cooldowns) (v : ℕ)
    → find_until k s ≡ some v
    → now < v
    → find_until k (retain_after now s) ≡ some v
unfolding find_until retain_after
retain-keeps now k [] v h l = ground (arith, h)
retain-keeps now k ((a, u) ∷ s) v h l = ground (arith, h, l, retain-keeps now k s v)

pub retain-IsKept :
    (now t u : ℕ) (k : DeliveryKey) (s : Cooldowns)
    → now ≤ t
    → IsKept k u t s
    → IsKept k u t (retain_after now s)
unfolding IsKept
retain-IsKept now t u k s l (inl p) = inl p
retain-IsKept now t u k s l (inr (v, f, m)) = elim (Bool-cases (ltb now v)) [
  | inl later ↦ inr (v, retain-keeps now k s v f (ground (arith, later)), m)
  | inr past ↦ inl (ground (arith, past, l, m))
]

pub raise-IsKept :
    (now until t u : ℕ) (q k : DeliveryKey) (s : Cooldowns)
    → IsKept k u t s
    → IsKept k u t (raise now until q s)
unfolding IsKept
raise-IsKept now until t u q k s (inl p) = inl p
raise-IsKept now until t u q k s (inr (v, f, m)) =
    let (w, g, l) = raise-keeps now until q k s v f in inr (w, g, omega (arith, l, m))

module _ (instant_end max_retry_after : ℕ) where
  -- A call that does not panic has raised both deadlines to some time.
  pub set_cooldown_secs-some :
      (now : ℕ) (bot : String) (chat : ℤ) (secs : ℕ) (s s' : Cooldowns)
      → set_cooldown_secs instant_end max_retry_after now bot chat secs s ≡ some s'
      → (until : ℕ) × (until_of instant_end max_retry_after now secs ≡ some until)
        × (s'
            ≡ retain_after now
                (raise now until (chat_key bot chat) (raise now until (bot_key bot) s)))
  unfolding set_cooldown_secs
  set_cooldown_secs-some now bot chat secs s s' h =
      elim (Option-cases (until_of instant_end max_retry_after now secs)) [
        | inl n ↦ absurd (cc (rw n at h))
        | inr (until, e) ↦ (until, e, cc (rw e at h))
      ]

  set-IsKept :
      (c : CooldownCall) (t u : ℕ) (k : DeliveryKey) (s s' : Cooldowns)
      → c.at ≤ t
      → set_cooldown_secs instant_end max_retry_after c.at c.bot_id c.chat_id c.retry_after_secs s
        ≡ some s'
      → IsKept k u t s
      → IsKept k u t s'
  set-IsKept c t u k s s' l h kept =
      let (until, e, i) =
        set_cooldown_secs-some c.at c.bot_id c.chat_id c.retry_after_secs s s' h in
      rw i (
        retain-IsKept c.at t u k _ l (
          raise-IsKept c.at until t u (chat_key c.bot_id c.chat_id) k _
            (raise-IsKept c.at until t u (bot_key c.bot_id) k s kept)))

  unfoldable pub set_all : List CooldownCall → Cooldowns → Option Cooldowns
  unfolding set_cooldown_secs
  set_all [] s = some s
  set_all (c ∷ cs) s =
      elim (set_cooldown_secs instant_end max_retry_after c.at c.bot_id c.chat_id c.retry_after_secs
        s) [ none ↦ none | some r ↦ set_all cs r ]

  pub set_all-IsKept :
      (cs : List CooldownCall) (t u : ℕ) (k : DeliveryKey) (s s' : Cooldowns)
      → All (λ c. c.at ≤ t) cs
      → set_all cs s ≡ some s'
      → IsKept k u t s
      → IsKept k u t s'
  unfolding set_all
  set_all-IsKept [] t u k s s' l h kept = subst (IsKept k u t) (cc h) kept
  set_all-IsKept (c ∷ cs) t u k s s' l h kept =
      elim (Option-cases (
        set_cooldown_secs instant_end max_retry_after c.at c.bot_id c.chat_id c.retry_after_secs
          s)) [
            | inl n ↦ absurd (cc (rw (n, set_all) at h))
            | inr (r, e) ↦
                set_all-IsKept cs t u k r s' (l.1) (rw (e, set_all) at h)
                  (set-IsKept c t u k s r (l.0) e kept)
          ]
