-- ===== src/Models/Limits.antt =====
-- src/vm/models.rs: token buckets and rate limiters.
use fctools.Base.{ℕ, none, some}
use fctools.Models.{TokenBucket, RateLimiter}

unfoldable pub new_limiter : TokenBucket → TokenBucket → RateLimiter
new_limiter bandwidth ops = record { bandwidth = bandwidth; ops = ops }

unfoldable pub new_bucket : ℕ → ℕ → TokenBucket
new_bucket size refill_time = record {
  size = size;
  refill_time = refill_time;
  one_time_burst = none;
}

module _ (bucket : TokenBucket) where
  unfoldable pub one_time_burst : ℕ → TokenBucket
  one_time_burst v = record bucket { one_time_burst = some v }
