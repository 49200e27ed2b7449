-- ===== src/RateLimit/Bounds.antt =====
-- How many requests a bucket lets through.
use flashkart.Base.{
  ℕ, ◌+◌, ◌-◌, ◌*◌, ◌≤◌, ◌<◌, ◌≡◌, Bool, true, false, Option, none, some, List, [], ◌∷◌, arith, ltb,
  if◌then◌else◌, Bool-cases, inl, inr, ap,
}
use native.Mathlib.Nat.{div-le_of_le-mul, lt-div-mul-add, div-mul-le_self}
use flashkart.RateLimit.{
  Limit, Bucket, Decision, full, price, unit, lookup, refilled, spend, rate_check, ttl_ms, ceil_div,
}

-- The cost of the request, if it is let through.
abbrev pub charged : Limit → ℕ → Decision → ℕ
charged l cost d = if d.allowed then price l cost else 0

spend_cases :
    (l : Limit) (cost now tokens : ℕ)
    → ((spend l cost now tokens).1.tokens + charged l cost (spend l cost now tokens).0 ≡ tokens)
      × ((spend l cost now tokens).1.last ≡ now)
      × ((spend l cost now tokens).1.expires_at ≡ now + ttl_ms l)
unfolding spend
spend_cases l cost now tokens = ground arith

pub ltb-false : (a b : ℕ) → ltb a b ≡ false → b ≤ a
ltb-false a b h = ground arith

pub refilled-le_full : (l : Limit) (b : Option Bucket) (now : ℕ) → refilled l b now ≤ full l
unfolding refilled
refilled-le_full l none now = omega arith
refilled-le_full l (some b) now = omega arith

spend-remaining :
    (l : Limit) (cost now tokens : ℕ)
    → tokens ≤ full l
    → 0 < l.den
    → (spend l cost now tokens).0.remaining ≤ l.capacity
unfolding spend
spend-remaining l cost now tokens h pos = ground (
  arith,
  div-le_of_le-mul (unit l) {m = tokens} {n = l.capacity} (omega arith),
  div-le_of_le-mul (unit l) {m = tokens - price l cost} {n = l.capacity} (omega arith),
)

-- With a positive denominator of the rate, the bucket that a check writes never holds more than its
-- capacity, and the tokens that it reports as remaining are no more either.
pub rate_check-le_capacity :
    (l : Limit) (cost now : ℕ) (b : Option Bucket)
    → 0 < l.den
    → ((rate_check l cost now b).1.tokens ≤ full l)
      × ((rate_check l cost now b).0.remaining ≤ l.capacity)
unfolding rate_check
rate_check-le_capacity l cost now b pos =
    let below = refilled-le_full l (lookup b now) now in
    (
      omega (arith, below, spend_cases l cost now (refilled l (lookup b now) now)),
      spend-remaining l cost now _ below pos,
    )

-- A bucket that the script wrote expires after `ttl_ms`.
abbrev pub IsFresh : Limit → Bucket → ℕ → Type 0
IsFresh l b last = (b.last ≡ last) × (b.expires_at ≡ last + ttl_ms l)

-- `ceil_div a b` is the least number of `b`s that reach `a`.
pub ceil_div-mul : (a b : ℕ) → 0 < b → (a ≤ ceil_div a b * b) × (ceil_div a b * b < a + b)
ceil_div-mul a b pos = (
  omega (arith, lt-div-mul-add {a = a + (b - 1)} pos),
  omega (arith, div-mul-le_self (a + (b - 1)) b),
)

pub mul_mono : (a b n : ℕ) → a ≤ b → a * n ≤ b * n
mul_mono a b n h = grind arith

-- By then it would be full anyway.
pub full-le_ttl : (l : Limit) → 0 < l.num → full l ≤ ttl_ms l * l.num
full-le_ttl l pos = omega (arith, ceil_div-mul (2 * l.capacity * l.den) l.num pos)

refilled-le_worth :
    (l : Limit) (b : Bucket) (last now : ℕ)
    → 0 < l.num
    → IsFresh l b last
    → last ≤ now
    → refilled l (lookup (some b) now) now ≤ b.tokens + (now - last) * l.num
unfolding lookup refilled
refilled-le_worth l b last now pos fresh le = elim (Bool-cases (ltb now b.expires_at)) [
  | inl e ↦ rw e (omega (arith, ap (λ (t : ℕ). (now - t) * l.num) fresh.0))
  | inr e ↦ rw e (
      omega (
        arith,
        full-le_ttl l pos,
        mul_mono (ttl_ms l) (now - last) l.num
            (omega (arith, fresh.1, ltb-false now b.expires_at e)),
      ))
]

-- The requests at the given times, one bucket for all.
unfoldable pub admitted : Limit → ℕ → Option Bucket → List ℕ → ℕ
admitted l cost b [] = 0
admitted l cost b (t ∷ ts) =
    let r = rate_check l cost t b in (if r.0.allowed then 1 else 0) + admitted l cost (some r.1) ts

abbrev pub Rising : ℕ → List ℕ → Type 0
Rising t [] = Unit {0}
Rising t (u ∷ us) = (t ≤ u) × Rising u us

abbrev pub end_of : ℕ → List ℕ → ℕ
end_of t [] = t
end_of t (u ∷ us) = end_of u us

abbrev charged_of : Limit → ℕ → Bool → ℕ
charged_of l cost allowed = if allowed then price l cost else 0

count_price :
    (l : Limit) (cost n : ℕ) (allowed : Bool)
    → ((if allowed then 1 else 0) + n) * price l cost ≡ charged_of l cost allowed + n * price l cost
count_price l cost n true = omega arith
count_price l cost n false = omega arith

split_time : (a b c n : ℕ) → a ≤ b → b ≤ c → (c - b) * n + (b - a) * n ≡ (c - a) * n
split_time a b c n h k =
    omega (arith, ap (λ (t : ℕ). t * n) (let e : (c - b) + (b - a) ≡ c - a = omega arith in e))

end_of-ge : (t : ℕ) (ts : List ℕ) → Rising t ts → t ≤ end_of t ts
end_of-ge t [] h = omega arith
end_of-ge t (u ∷ us) h = omega (arith, h.0, end_of-ge u us h.1)

admitted-le_worth :
    (l : Limit) (cost : ℕ) (b : Bucket) (last : ℕ) (ts : List ℕ)
    → 0 < l.num
    → IsFresh l b last
    → Rising last ts
    → admitted l cost (some b) ts * price l cost ≤ b.tokens + (end_of last ts - last) * l.num
unfolding admitted rate_check
admitted-le_worth l cost b last [] pos fresh rising = omega arith
admitted-le_worth l cost b last (t ∷ ts) pos fresh rising =
    let r = spend l cost t (refilled l (lookup (some b) t) t) in
    let c = spend_cases l cost t (refilled l (lookup (some b) t) t) in
    omega (
      arith,
      refilled-le_worth l b last t pos fresh rising.0,
      c.0,
      count_price l cost (admitted l cost (some r.1) ts) r.0.allowed,
      admitted-le_worth l cost r.1 t ts pos (c.1, c.2) rising.1,
      split_time last t (end_of t ts) l.num rising.0 (end_of-ge t ts rising.1),
    )

-- With a positive rate, over any rising times, from a missing key, the requests that one bucket lets through cost at most
-- its capacity and what the rate refills between the first and the last of them.
pub admitted_bound :
    (l : Limit) (cost first : ℕ) (ts : List ℕ)
    → 0 < l.num
    → Rising first ts
    → admitted l cost none (first ∷ ts) * price l cost ≤ full l + (end_of first ts - first) * l.num
unfolding admitted rate_check lookup refilled
admitted_bound l cost first ts pos rising =
    let r = spend l cost first (full l) in
    let c = spend_cases l cost first (full l) in
    omega (
      arith,
      c.0,
      count_price l cost (admitted l cost (some r.1) ts) r.0.allowed,
      admitted-le_worth l cost r.1 first ts pos (c.1, c.2) rising,
    )
