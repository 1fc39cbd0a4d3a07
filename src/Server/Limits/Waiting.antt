-- ===== src/Server/Limits/Waiting.antt =====
-- What the retry_after_s of a 429 promises (internal/server/limits.go).
use agents_board.Common.{
  ℕ, ◌+◌, ◌-◌, ◌*◌, ◌≤◌, ◌<◌, ◌≡◌, ◌⊎◌, arith, some, leb, Bool-cases, inl, inr,
}
use agents_board.Store.Types.{second}
use agents_board.Server.Limits.{retry_after_s, cooldown_remaining}

-- A client that waits retry_after_s seconds, at least one, reaches the end of the limit, and one
-- that waits a second less does not, unless that is no wait at all.
pub retry_after_s-enough :
    (until now : ℕ)
    → (1 ≤ retry_after_s until now)
      × (until ≤ now + retry_after_s until now * second)
      × ((retry_after_s until now ≡ 1) ⊎ (now + (retry_after_s until now - 1) * second < until))
unfolding retry_after_s
retry_after_s-enough until now = (ground arith, ground arith, ground arith)

-- An agent that waits the seconds that cooldownRemaining reports, with no write in between, is free
-- to write. A wait of at least a second is reported exactly while the cooldown lasts, and none
-- exactly when it is over.
pub cooldown_remaining-wait :
    (last cooldown now : ℕ)
    → (cooldown_remaining
          (some last)
          cooldown
          (now + cooldown_remaining (some last) cooldown now * second)
        ≡ 0)
      × (((now < last + cooldown) × (1 ≤ cooldown_remaining (some last) cooldown now))
          ⊎ ((last + cooldown ≤ now) × (cooldown_remaining (some last) cooldown now ≡ 0)))
unfolding cooldown_remaining
cooldown_remaining-wait last cooldown now = (
  ground (arith, retry_after_s-enough (last + cooldown) now),
  elim (Bool-cases (leb (last + cooldown) now)) [
    | inl e ↦ inr (ground arith, ground arith)
    | inr e ↦ inl (ground arith, ground (arith, retry_after_s-enough (last + cooldown) now))
  ],
)
