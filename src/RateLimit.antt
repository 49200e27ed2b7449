-- ===== src/RateLimit.antt =====
-- api/src/rateLimit: the token bucket (tokenBucket.ts) and its middleware (middleware.ts).
-- The refill rate is `num / den` tokens a second, and the bucket counts in units of 1/(1000 den) of
-- a token, in which a millisecond refills `num` units: the script's arithmetic is then exact on
-- whole numbers, and the rounding of Lua's doubles is left out. Redis' clock is the caller's.
pub mod Bounds
pub mod Callers
pub mod Skew
pub mod Middleware
use flashkart.Base.{
  ℕ, ◌+◌, ◌-◌, ◌*◌, ◌/◌, Bool, true, false, Option, none, some, leb, ltb, min, if◌then◌else◌,
}

pub record Limit : Type 0 where
  pub capacity : ℕ
  pub num : ℕ
  pub den : ℕ

abbrev pub unit : Limit → ℕ
unit l = 1000 * l.den

-- `capacity`, and `cost`, in units.
abbrev pub full : Limit → ℕ
full l = l.capacity * unit l

abbrev pub price : Limit → ℕ → ℕ
price l cost = cost * unit l

pub record Bucket : Type 0 where
  pub tokens : ℕ
  pub last : ℕ
  pub expires_at : ℕ

pub record Decision : Type 0 where
  pub allowed : Bool
  pub remaining : ℕ
  pub retry_after_ms : ℕ

-- `math.ceil(a / b)`
abbrev pub ceil_div : ℕ → ℕ → ℕ
ceil_div a b = (a + (b - 1)) / b

-- `HMGET`: an expired key is missing.
unfoldable pub lookup : Option Bucket → ℕ → Option Bucket
lookup none now = none
lookup (some b) now = if ltb now b.expires_at then some b else none

-- The tokens after the refill; a missing key starts full. A clock that went back refills nothing.
unfoldable pub refilled : Limit → Option Bucket → ℕ → ℕ
refilled l none now = full l
refilled l (some b) now = min (full l) (b.tokens + (now - b.last) * l.num)

abbrev pub ttl_ms : Limit → ℕ
ttl_ms l = ceil_div (2 * l.capacity * l.den) l.num * 1000

abbrev pub keep : Limit → ℕ → ℕ → Bucket
keep l now tokens = record { tokens = tokens; last = now; expires_at = now + ttl_ms l }

-- The script from the refilled tokens on: the decision, and the bucket that it writes.
unfoldable pub spend : Limit → ℕ → ℕ → ℕ → Decision × Bucket
spend l cost now tokens =
    if leb (price l cost) tokens
    then (
      record { allowed = true; remaining = (tokens - price l cost) / unit l; retry_after_ms = 0 },
      keep l now (tokens - price l cost),
    )
    else (
      record {
        allowed = false;
        remaining = tokens / unit l;
        retry_after_ms = ceil_div (price l cost - tokens) l.num;
      },
      keep l now tokens,
    )

unfoldable pub rate_check : Limit → ℕ → ℕ → Option Bucket → Decision × Bucket
unfolding lookup refilled spend
rate_check l cost now b = spend l cost now (refilled l (lookup b now) now)

-- The limits of api/src/routes: 5 requests and one in two seconds to buy, 10 and one in six seconds
-- to log in.
abbrev pub buy_limit : Limit
buy_limit = record { capacity = 5; num = 1; den = 2 }

abbrev pub auth_limit : Limit
auth_limit = record { capacity = 10; num = 1; den = 6 }
