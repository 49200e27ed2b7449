-- ===== src/RateLimit/Middleware.antt =====
-- api/src/rateLimit/middleware.ts: what a request gets from the limiter. `keyOf` has been applied;
-- the environment's bypass token is an argument.
use Prim.Native.String.{◌++◌ as concat}
use flashkart.Base.{
  ℕ, ◌≡◌, refl, max, Bool, true, false, String, Option, none, some, str_eq, not, ◌&&◌,
  if◌then◌else◌,
}
use flashkart.RateLimit.{Limit, Bucket, Decision, rate_check, ceil_div}

-- `next()`, or the 429 response with its headers and body.
pub data Verdict : Type 0 where
  next : Verdict
  next_with : ℕ → ℕ → Verdict
  too_many : ℕ → ℕ → ℕ → ℕ → Verdict

-- `if (token) { if (provided && provided === token) … }`; an empty text is falsy.
unfoldable pub bypassed : String → Option String → Bool
bypassed token none = false
bypassed token (some provided) =
    not (str_eq token "") && (not (str_eq provided "") && str_eq provided token)

unfoldable pub verdict : Limit → Decision → Verdict
verdict l d =
    if d.allowed
    then next_with l.capacity (max 0 d.remaining)
    else too_many l.capacity (max 0 d.remaining) (max 1 (ceil_div d.retry_after_ms 1000))
        d.retry_after_ms

-- The buckets by key.
abbrev pub Buckets : Type 0
Buckets = String → Option Bucket

abbrev pub bucket_key : String → String → String
bucket_key scope id = concat (concat (concat "rl:" scope) ":") id

-- `fault` says that Redis failed.
unfoldable pub check_key : Limit → ℕ → ℕ → Bool → String → Buckets → Verdict × Buckets
unfolding verdict
check_key l cost now true key bs = (next, bs)
check_key l cost now false key bs =
    let (d, b) = rate_check l cost now (bs key) in
    (verdict l d, λ k. if str_eq key k then some b else bs k)

-- A missing or empty identity is let through.
unfoldable pub limit_identity :
    Limit → ℕ → ℕ → Bool → String → Option String → Buckets → Verdict × Buckets
unfolding check_key
limit_identity l cost now fault scope none bs = (next, bs)
limit_identity l cost now fault scope (some id) bs =
    if str_eq id "" then (next, bs) else check_key l cost now fault (bucket_key scope id) bs

unfoldable pub rate_limit :
    String
    → Limit
    → ℕ
    → String
    → Option String
    → ℕ
    → Bool
    → Option String
    → Buckets
    → Verdict × Buckets
unfolding bypassed limit_identity
rate_limit token l cost scope provided now fault id bs =
    if bypassed token provided then (next, bs) else limit_identity l cost now fault scope id bs

-- With no bypass token set, no header lets a request pass the limiter: the verdict is the one that
-- its identity gets.
pub no_bypass :
    (l : Limit) (cost now : ℕ) (scope : String) (provided id : Option String) (fault : Bool)
    (bs : Buckets)
    → rate_limit "" l cost scope provided now fault id bs
      ≡ limit_identity l cost now fault scope id bs
unfolding rate_limit bypassed
no_bypass l cost now scope none id fault bs = refl
no_bypass l cost now scope (some provided) id fault bs = refl
