-- ===== src/Worker.antt =====
-- src/worker/mod.rs: the delay before a job is tried again. Links is about the links of a text,
-- Artifacts and Jobs are about the methods of `Worker`, and the other children about what they do.
pub mod Artifacts
pub mod Jobs
pub mod Done
pub mod Keeps
pub mod Links
pub mod MediaProcessor
pub mod Retry
pub mod Runs
pub mod Settles
pub mod Sourced
pub mod Threads
pub mod Written
use sage_wiki_bridge_wxo.Base.{ℕ, ◌+◌, ◌-◌, ◌*◌, ◌^◌, min}

-- Durations as whole seconds, which are 64-bit numbers without a sign.
pub record RetryPolicy : Type 0 where
  pub base_delay : ℕ
  pub max_delay : ℕ

abbrev pub i64_max : ℕ
i64_max = 2 ^ 63 - 1

-- `saturating_mul` of numbers that are not negative
unfoldable pub saturating_mul : ℕ → ℕ → ℕ
saturating_mul a b = min (a * b) i64_max

-- `attempts` counts claims and is not negative, so `saturating_sub(1).clamp(0, 5)` is as here.
unfoldable pub retry_exponent : ℕ → ℕ
retry_exponent attempts = min (attempts - 1) 5

unfoldable pub retry_delay_seconds : ℕ → RetryPolicy → ℕ
unfolding saturating_mul retry_exponent
retry_delay_seconds attempts retry_policy =
    min (saturating_mul (min retry_policy.base_delay i64_max) (2 ^ retry_exponent attempts))
      (min retry_policy.max_delay i64_max)
