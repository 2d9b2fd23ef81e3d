-- ===== src/Examples/Delivery.antt =====
-- The theorems on src/modules/telegram/delivery_queue.rs, on a bot with two chats and a delivery that
-- is enqueued twice.
use im_bridge_rs.Common.{ℕ, ◌+◌, ◌*◌, ◌≤◌, ◌^◌, pos, some, List, [], ◌∷◌, ◌≡◌, ◌⊎◌, refl, arith}
use im_bridge_rs.Delivery.{
  Cooldowns, PendingDelivery, from_secs, bot_key, chat_key, set_cooldown_secs, remaining, wait,
}
use im_bridge_rs.Delivery.Deadlines.{CooldownCall, set_all}
use im_bridge_rs.Delivery.Waiting.{IsAfter, wait_respects_cooldown, wait_ends}
use im_bridge_rs.Delivery.HandOut.{
  PendingEvent, enqueues, takes, forgets, handle_all, times_in, times_enqueued, handed_out_lem,
}

abbrev instant_limit : ℕ
instant_limit = 2 ^ 63 * 1000000000

abbrev paused : Cooldowns
paused = (bot_key "bot", 5000000100) ∷ (chat_key "bot" (pos 1), 5000000100) ∷ []

abbrev shorter : CooldownCall
shorter = record { at = 200; bot_id = "bot"; chat_id = pos 2; retry_after_secs = 1 }

abbrev paused_twice : Cooldowns
paused_twice =
    (bot_key "bot", 5000000100)
    ∷ (chat_key "bot" (pos 1), 5000000100)
    ∷ (chat_key "bot" (pos 2), 1000000200)
    ∷ []

abbrev found_in_rounds : List (ℕ × Cooldowns)
found_in_rounds = (300, paused_twice) ∷ (5000000100, paused_twice) ∷ []

wait_respects_cooldown_example : 100 + from_secs 5 ≤ 5000000100
unfolding set_cooldown_secs wait IsAfter set_all
wait_respects_cooldown_example =
    wait_respects_cooldown instant_limit (from_secs 3600) 100 5 5000000100 "bot" (pos 1) (pos 2) []
      paused found_in_rounds (omega arith) refl
      (
        (omega arith, (shorter ∷ [], refl, (omega arith, tt))),
        ((omega arith, (shorter ∷ [], refl, (omega arith, tt))), tt),
      )
      refl

wait_ends_example :
    (wait "bot" (pos 2) ((300, paused_twice) ∷ (5000000100, paused_twice) ∷ []) ≡ some 300)
    ⊎ (wait "bot" (pos 2) ((300, paused_twice) ∷ (5000000100, paused_twice) ∷ []) ≡ some 5000000100)
unfolding remaining
wait_ends_example = wait_ends 300 5000000100 "bot" (pos 2) paused_twice [] (omega arith)

abbrev delivery : PendingDelivery
delivery = record { delivery_id = "d"; bot_id = "bot"; chat_id = pos 1 }

abbrev deliveries_made : List PendingEvent
deliveries_made =
    enqueues delivery
    ∷ takes "d"
    ∷ takes "d"
    ∷ enqueues delivery
    ∷ enqueues delivery
    ∷ takes "d"
    ∷ takes "d"
    ∷ forgets "d"
    ∷ []

handed_out_lem_example :
    times_in "d" (handle_all deliveries_made (record { waiting = []; handed = [] })).handed
    ≤ times_enqueued "d" deliveries_made
handed_out_lem_example = handed_out_lem "d" deliveries_made
