-- ===== src/Worker/Retry.antt =====
-- The delay before a retry: within its bounds, never shorter after more attempts, and doubled by
-- each attempt until a bound is met.
use sage_wiki_bridge_wxo.Base.{ℕ, zero, suc, ◌+◌, ◌-◌, ◌*◌, ◌^◌, ◌≤◌, ◌<◌, ◌≡◌, refl, arith, min}
use native.Mathlib.Nat.{pow-le-pow_right, mul-le-mul_left}
use sage_wiki_bridge_wxo.Worker.{
  RetryPolicy, i64_max, saturating_mul, retry_exponent, retry_delay_seconds,
}

-- The factor of the base delay.
abbrev factor : ℕ → ℕ
factor attempts = 2 ^ retry_exponent attempts

factor-last : (attempts : ℕ) → 6 ≤ attempts → factor attempts ≡ 32
unfolding retry_exponent
factor-last attempts h = let e : min (attempts - 1) 5 ≡ 5 = omega arith in rw e refl

factor-double :
    (attempts : ℕ) → 1 ≤ attempts → attempts ≤ 5 → factor (attempts + 1) ≡ 2 * factor attempts
unfolding retry_exponent
factor-double zero h k = absurd (omega arith)
factor-double (suc zero) h k = refl
factor-double (suc (suc zero)) h k = refl
factor-double (suc (suc (suc zero))) h k = refl
factor-double (suc (suc (suc (suc zero)))) h k = refl
factor-double (suc (suc (suc (suc (suc zero))))) h k = refl
factor-double (suc (suc (suc (suc (suc (suc n)))))) h k = absurd (omega arith)

factor-monotone : (fewer more : ℕ) → fewer ≤ more → factor fewer ≤ factor more
unfolding retry_exponent
factor-monotone fewer more h = pow-le-pow_right (omega arith) (omega arith)

factor-positive : (attempts : ℕ) → 1 ≤ factor attempts
unfolding retry_exponent
factor-positive attempts = factor-monotone 0 attempts (omega arith)

-- The delay, by the product before the bounds.
abbrev bounded : ℕ → RetryPolicy → ℕ
bounded product policy = min (min product i64_max) (min policy.max_delay i64_max)

-- The delay fits in 63 bits, is at most the longest delay of the policy, and at least the base
-- delay where the policy's longest delay is not shorter than that.
pub retry_delay_seconds-bounds :
    (attempts : ℕ) (policy : RetryPolicy)
    → (retry_delay_seconds attempts policy < 2 ^ 63)
      × (retry_delay_seconds attempts policy ≤ policy.max_delay)
      × (min (min policy.base_delay policy.max_delay) i64_max ≤ retry_delay_seconds attempts policy)
unfolding retry_delay_seconds saturating_mul
retry_delay_seconds-bounds attempts policy =
    let base = min policy.base_delay i64_max in
    let longer : base * 1 ≤ base * factor attempts =
      mul-le-mul_left base (factor-positive attempts) in
    (omega arith, omega arith, omega (arith, longer))

-- The delay after more attempts is at least as long.
pub retry_delay_seconds-monotone :
    (fewer more : ℕ) (policy : RetryPolicy)
    → fewer ≤ more
    → retry_delay_seconds fewer policy ≤ retry_delay_seconds more policy
unfolding retry_delay_seconds saturating_mul retry_exponent
retry_delay_seconds-monotone fewer more policy h =
    let base = min policy.base_delay i64_max in
    let longer : base * factor fewer ≤ base * factor more =
      mul-le-mul_left base (factor-monotone fewer more h) in
    omega (arith, longer)

-- From the first to the sixth attempt each delay is twice the one before, as long as that is no
-- longer than the policy's longest delay.
pub retry_delay_seconds-doubles :
    (attempts : ℕ) (policy : RetryPolicy)
    → policy.max_delay ≤ i64_max
    → 1 ≤ attempts
    → attempts ≤ 5
    → retry_delay_seconds (attempts + 1) policy
      ≡ min (2 * retry_delay_seconds attempts policy) policy.max_delay
unfolding retry_delay_seconds saturating_mul
retry_delay_seconds-doubles attempts policy h low high =
    let base = min policy.base_delay i64_max in
    let twice : base * factor (attempts + 1) ≡ 2 * (base * factor attempts) =
      rw (factor-double attempts low high) (omega arith) in
    omega (arith, twice)
