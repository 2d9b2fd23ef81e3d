-- ===== src/Delivery/Waiting.antt =====
-- src/modules/telegram/delivery_queue.rs: when `wait` returns.
use im_bridge_rs.Common.{
  ℕ, ◌+◌, ◌<◌, ◌≤◌, ◌==◌, ℤ, String, some, List, [], ◌∷◌, ◌≡◌, refl, sym, ◌∙◌, ◌⊎◌, inl, inr, All,
  arith, Bool-cases, Option-cases,
}
use im_bridge_rs.Delivery.{
  Cooldowns, find_until, from_secs, bot_key, chat_key, until_of, set_cooldown_secs, remaining, wait,
}
use im_bridge_rs.Delivery.Deadlines.{
  CooldownCall, IsKept, raise-keeps, raise-sets, retain-IsKept, set_cooldown_secs-some, set_all,
  set_all-IsKept,
}

remaining-zero :
    (t u : ℕ) (bot : String) (chat : ℤ) (s : Cooldowns)
    → IsKept (bot_key bot) u t s
    → remaining t bot chat s ≡ 0
    → u ≤ t
unfolding IsKept remaining
remaining-zero t u bot chat s (inl p) h = p
remaining-zero t u bot chat s (inr (v, f, l)) h =
    elim (Option-cases (find_until (chat_key bot chat) s)) [
      | inl n ↦ ground (arith, (rw (f, n) at h), l)
      | inr (w, g) ↦ ground (arith, (rw (f, g) at h), l)
    ]

module _ (instant_end max_retry_after : ℕ) where
  until_of-some :
      (now secs : ℕ)
      → now + from_secs secs < instant_end
      → until_of instant_end max_retry_after now secs ≡ some (now + from_secs secs)
  unfolding until_of
  until_of-some now secs h = ground (arith, h)

  set-starts :
      (now t secs : ℕ) (bot : String) (chat : ℤ) (s s' : Cooldowns)
      → now + from_secs secs < instant_end
      → set_cooldown_secs instant_end max_retry_after now bot chat secs s ≡ some s'
      → now ≤ t
      → IsKept (bot_key bot) (now + from_secs secs) t s'
  unfolding IsKept
  set-starts now t secs bot chat s s' fits h l =
      let (until, e, i) =
        set_cooldown_secs-some instant_end max_retry_after now bot chat secs s s' h in
      let (v, f, m) = raise-sets now until (bot_key bot) s in
      let (w, g, n) = raise-keeps now until (chat_key bot chat) (bot_key bot) _ v f in
      let same : some until ≡ some (now + from_secs secs) = sym e ∙ until_of-some now secs fits in
      rw i (
        retain-IsKept now t (now + from_secs secs) (bot_key bot) _ l
          (inr (w, g, ground (arith, same, m, n))))

  -- The time and the deadlines of a round of `wait` that comes after `now`, when the deadlines were
  -- `s`, and after further calls.
  unfoldable pub IsAfter : ℕ → Cooldowns → ℕ × Cooldowns → Type 0
  IsAfter now s round =
      (now ≤ round.0)
      × ((cs : List CooldownCall) × (set_all instant_end max_retry_after cs s ≡ some round.1)
          × All (λ c. c.at ≤ round.0) cs)

  -- Once the server has asked for a pause of a bot, in any chat, then whatever pauses are set later,
  -- a wait for any chat of the bot that begins afterwards does not return before the time that the
  -- server has asked for, if an Instant can hold that time.
  pub wait_respects_cooldown :
      (now secs t : ℕ) (bot : String) (chat other : ℤ) (s s' : Cooldowns)
      (rounds : List (ℕ × Cooldowns))
      → now + from_secs secs < instant_end
      → set_cooldown_secs instant_end max_retry_after now bot chat secs s ≡ some s'
      → All (IsAfter now s') rounds
      → wait bot other rounds ≡ some t
      → now + from_secs secs ≤ t
  unfolding IsAfter wait
  wait_respects_cooldown now secs t bot chat other s s' [] fits h after done = absurd (cc done)
  wait_respects_cooldown now secs t bot chat other s s' ((t', r) ∷ rounds) fits h
        ((l, (cs, e, a)), after) done =
      elim (Bool-cases (remaining t' bot other r == 0)) [
        | inl z ↦
            let kept =
              set_all-IsKept instant_end max_retry_after cs t' (now + from_secs secs) (bot_key bot)
                s' r a e (set-starts now t' secs bot chat s s' fits h l) in
            let returned : some t' ≡ some t = rw (z, wait) at done in
            ground (
              arith,
              returned,
              remaining-zero t' (now + from_secs secs) bot other r kept (ground (arith, z)),
            )
        | inr n ↦
            wait_respects_cooldown now secs t bot chat other s s' rounds fits h after
              (rw (n, wait) at done)
      ]

remaining-passed :
    (t t' : ℕ) (bot : String) (chat : ℤ) (s : Cooldowns)
    → t + remaining t bot chat s ≤ t'
    → remaining t' bot chat s ≡ 0
unfolding remaining
remaining-passed t t' bot chat s h = elim (Option-cases (find_until (bot_key bot) s)) [
  | inl n ↦ elim (Option-cases (find_until (chat_key bot chat) s)) [
    | inl m ↦ rw n (rw m (ground arith))
    | inr (w, g) ↦ rw n (rw g (ground (arith, (rw (n, g) at h))))
  ]
  | inr (v, f) ↦ elim (Option-cases (find_until (chat_key bot chat) s)) [
    | inl m ↦ rw f (rw m (ground (arith, (rw (f, m) at h))))
    | inr (w, g) ↦ rw f (rw g (ground (arith, (rw (f, g) at h))))
  ]
]

-- A wait returns in its first or in its second round, if the sleep between them is as long as the
-- first round has found to remain and the deadlines are the same in both.
pub wait_ends :
    (t t' : ℕ) (bot : String) (chat : ℤ) (s : Cooldowns) (rounds : List (ℕ × Cooldowns))
    → t + remaining t bot chat s ≤ t'
    → (wait bot chat ((t, s) ∷ (t', s) ∷ rounds) ≡ some t)
      ⊎ (wait bot chat ((t, s) ∷ (t', s) ∷ rounds) ≡ some t')
unfolding wait
wait_ends t t' bot chat s rounds h = elim (Bool-cases (remaining t bot chat s == 0)) [
  | inl z ↦ inl (rw z refl)
  | inr n ↦ inr (rw n (rw (remaining-passed t t' bot chat s h) refl))
]
