-- ===== src/Delivery/Cooldown.antt =====
-- src/modules/telegram/delivery_queue.rs: the deadlines of `DeliveryCoordinator`. An `Instant` and a
-- `Duration` are numbers of nanoseconds. A call reads the clock once, and its reading is an argument.
use im_bridge_rs.Common.{
  ℕ, ◌+◌, ◌-◌, ◌*◌, ℤ, ◌==ℤ◌, String, Bool, true, false, Option, none, some, List, [], ◌∷◌, ◌&&◌,
  str_eq, ltb, ◌==◌, if◌then◌else◌,
}

pub record DeliveryKey : Type 0 where
  pub bot_id : String
  pub chat_id : Option ℤ  -- i64

abbrev same_chat_id : Option ℤ → Option ℤ → Bool
same_chat_id none none = true
same_chat_id (some a) (some b) = a ==ℤ b
same_chat_id _ _ = false

-- the derived `PartialEq` of `DeliveryKey`
unfoldable pub same_key : DeliveryKey → DeliveryKey → Bool
same_key a b = str_eq a.bot_id b.bot_id && same_chat_id a.chat_id b.chat_id

-- `HashMap<DeliveryKey, CooldownState>`, a state being its `cooldown_until`
abbrev pub Cooldowns : Type 0
Cooldowns = List (DeliveryKey × ℕ)

unfoldable pub find_until : DeliveryKey → Cooldowns → Option ℕ
unfolding same_key
find_until k [] = none
find_until k ((a, u) ∷ s) = if same_key a k then some u else find_until k s

abbrev pub later_of : ℕ → ℕ → ℕ
later_of a b = if ltb a b then b else a

-- `states.entry(key).or_insert(..)` at `now`, and the raise of its deadline to `until`
unfoldable pub raise : ℕ → ℕ → DeliveryKey → Cooldowns → Cooldowns
unfolding same_key
raise now until k [] = (k, later_of now until) ∷ []
raise now until k ((a, u) ∷ s) =
    if same_key a k then (a, later_of u until) ∷ s else (a, u) ∷ raise now until k s

-- `states.retain(|_, state| state.cooldown_until > Instant::now())`
unfoldable pub retain_after : ℕ → Cooldowns → Cooldowns
retain_after now [] = []
retain_after now ((a, u) ∷ s) =
    let rest = retain_after now s in if ltb now u then (a, u) ∷ rest else rest

abbrev pub from_secs : ℕ → ℕ
from_secs secs = secs * 1000000000

-- `max_retry_after.max(Duration::from_secs(1))`, of `new`
abbrev pub new_max_retry_after : ℕ → ℕ
new_max_retry_after max_retry_after = later_of max_retry_after (from_secs 1)

abbrev pub bot_key : String → DeliveryKey
bot_key bot_id = record { bot_id = bot_id; chat_id = none }

abbrev pub chat_key : String → ℤ → DeliveryKey
chat_key bot_id chat_id = record { bot_id = bot_id; chat_id = some chat_id }

-- `instant_end` is the first number of nanoseconds that an `Instant` cannot hold.
module _ (instant_end max_retry_after : ℕ) where
  -- `Instant::checked_add`; the addition panics where this is `none`.
  abbrev pub checked_add : ℕ → ℕ → Option ℕ
  checked_add now d = if ltb (now + d) instant_end then some (now + d) else none

  -- `until`; `none` is a panic.
  unfoldable pub until_of : ℕ → ℕ → Option ℕ
  until_of now secs = elim (checked_add now (from_secs secs)) [
    | some u ↦ some u
    | none ↦ checked_add now max_retry_after
  ]

  raise_both : ℕ → String → ℤ → Cooldowns → Option ℕ → Option Cooldowns
  unfolding raise retain_after
  raise_both now bot_id chat_id s none = none
  raise_both now bot_id chat_id s (some until) = some (
      retain_after now
        (raise now until (chat_key bot_id chat_id) (raise now until (bot_key bot_id) s)))

  -- `set_cooldown_secs`
  unfoldable pub set_cooldown_secs : ℕ → String → ℤ → ℕ → Cooldowns → Option Cooldowns
  unfolding raise_both until_of
  set_cooldown_secs now bot_id chat_id secs s = raise_both now bot_id chat_id s (until_of now secs)

-- `map(|state| state.cooldown_until).unwrap_or(now)`
abbrev pub until_or : ℕ → Option ℕ → ℕ
until_or now none = now
until_or now (some u) = u

-- `bot_until.max(chat_until).saturating_duration_since(now)`
unfoldable pub remaining : ℕ → String → ℤ → Cooldowns → ℕ
unfolding find_until
remaining now bot_id chat_id s =
    later_of (until_or now (find_until (bot_key bot_id) s))
      (until_or now (find_until (chat_key bot_id chat_id) s))
    - now

module _ (max_retry_after : ℕ) where
  -- `cooldown_remaining`; `contended` is a failed `try_lock`.
  unfoldable pub cooldown_remaining : Bool → ℕ → String → ℤ → Cooldowns → ℕ
  unfolding remaining
  cooldown_remaining contended now bot_id chat_id s =
      if contended then max_retry_after else remaining now bot_id chat_id s

  -- `is_cooling_down`
  abbrev pub is_cooling_down : Bool → ℕ → String → ℤ → Cooldowns → Bool
  unfolding cooldown_remaining
  is_cooling_down contended now bot_id chat_id s =
      ltb 0 (cooldown_remaining contended now bot_id chat_id s)

-- `wait`, by what each round of its loop finds: the time and the deadlines. The result is the
-- time at which it returns, if it does so in these rounds.
unfoldable pub wait : String → ℤ → List (ℕ × Cooldowns) → Option ℕ
unfolding remaining
wait bot_id chat_id [] = none
wait bot_id chat_id ((now, s) ∷ rounds) =
    if remaining now bot_id chat_id s == 0 then some now else wait bot_id chat_id rounds
