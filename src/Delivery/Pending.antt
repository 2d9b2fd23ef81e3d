-- ===== src/Delivery/Pending.antt =====
-- src/modules/telegram/delivery_queue.rs: the deliveries that wait. `take_due` and `take_due_for`
-- look for a delivery with the lock held, release it, and take the delivery with the lock held
-- again: these are two steps.
use im_bridge_rs.Common.{
  ℕ, ℤ, ◌==ℤ◌, String, Bool, Option, none, some, List, [], ◌∷◌, ◌&&◌, str_eq, ◌==◌, if◌then◌else◌,
}
use im_bridge_rs.Delivery.Cooldown.{Cooldowns, cooldown_remaining}

pub record PendingDelivery : Type 0 where
  pub delivery_id : String
  pub bot_id : String
  pub chat_id : ℤ  -- i64

-- `HashMap<String, PendingDelivery>` by the delivery's id, in the order that `values` goes through
abbrev pub Deliveries : Type 0
Deliveries = List PendingDelivery

-- `HashMap::remove`
unfoldable pub take_id : String → Deliveries → Option PendingDelivery × Deliveries
take_id id [] = (none, [])
take_id id (p ∷ ps) =
    let rest = take_id id ps in
    if str_eq p.delivery_id id then (some p, ps) else (rest.0, p ∷ rest.1)

-- `enqueue_pending`: `HashMap::insert`
unfoldable pub enqueue_pending : PendingDelivery → Deliveries → Deliveries
unfolding take_id
enqueue_pending p ps = p ∷ (take_id p.delivery_id ps).1

-- `forget_pending`
abbrev pub forget_pending : String → Deliveries → Deliveries
unfolding take_id
forget_pending id ps = (take_id id ps).1

-- `values().find_map(..)`
unfoldable pub find_delivery : (PendingDelivery → Bool) → Deliveries → Option PendingDelivery
find_delivery test [] = none
find_delivery test (p ∷ ps) = if test p then some p else find_delivery test ps

-- `contended` tells for which deliveries `cooldown_remaining` finds the deadlines locked.
module _ (max_retry_after : ℕ) (contended : PendingDelivery → Bool) (now : ℕ) (s : Cooldowns) where
  abbrev pub is_due : PendingDelivery → Bool
  unfolding cooldown_remaining
  is_due p = cooldown_remaining max_retry_after (contended p) now p.bot_id p.chat_id s == 0

  -- The first step of `take_due`.
  unfoldable pub find_due : Deliveries → Option PendingDelivery
  unfolding find_delivery
  find_due = find_delivery is_due

  -- The first step of `take_due_for`.
  unfoldable pub find_due_for : String → ℤ → Deliveries → Option PendingDelivery
  unfolding find_delivery
  find_due_for bot_id chat_id =
      find_delivery (λ p. str_eq p.bot_id bot_id && p.chat_id ==ℤ chat_id && is_due p)
