-- ===== src/RateLimit/Skew.antt =====
-- The time of a check is the clock of the api process that makes it. Two processes whose clocks
-- differ share a bucket.
use flashkart.Base.{
  ltb, Bool-cases, inl, inr, min, ap, ◌-◌, ℕ, zero, suc, ◌+◌, ◌*◌, ◌≤◌, ◌<◌, ◌≡◌, true, Option,
  some, List, [], ◌∷◌, arith,
}
use flashkart.RateLimit.{Limit, Bucket, full, price, lookup, refilled, spend, rate_check, ttl_ms}
use flashkart.RateLimit.Bounds.{admitted, full-le_ttl, mul_mono, ltb-false}

-- One process at time `t` and one whose clock is `gap` ahead ask in turn, `n` times each.
abbrev pub alternating : ℕ → ℕ → ℕ → List ℕ
alternating t gap zero = []
alternating t gap (suc n) = t ∷ (t + gap) ∷ alternating t gap n

spend_allowed :
    (l : Limit) (cost now tokens : ℕ)
    → ((spend l cost now tokens).0.allowed ≡ true → price l cost ≤ tokens)
      × (price l cost ≤ tokens → (spend l cost now tokens).0.allowed ≡ true)
unfolding spend
spend_allowed l cost now tokens = (ground arith, ground arith)

-- The tokens that a bucket of `tokens` at `last` has `wait` milliseconds on, expired or not.
refilled_later :
    (l : Limit) (b : Bucket) (last wait : ℕ)
    → 0 < l.num
    → b.last ≡ last
    → b.expires_at ≡ last + ttl_ms l
    → refilled l (lookup (some b) (last + wait)) (last + wait)
      ≡ min (full l) (b.tokens + wait * l.num)
unfolding lookup refilled
refilled_later l b last wait pos e f = elim (Bool-cases (ltb (last + wait) b.expires_at)) [
  | inl h ↦ rw h (
      omega (
        arith,
        ap (λ (t : ℕ). (last + wait - t) * l.num) e,
        let k : last + wait - last ≡ wait = omega arith in ap (λ (t : ℕ). t * l.num) k,
      ))
  | inr h ↦ rw h (
      omega (
        arith,
        full-le_ttl l pos,
        mul_mono (ttl_ms l) wait l.num (omega (arith, f, ltb-false (last + wait) b.expires_at h)),
      ))
]

spend_written :
    (l : Limit) (cost now tokens : ℕ)
    → ((spend l cost now tokens).1.last ≡ now)
      × ((spend l cost now tokens).1.expires_at ≡ now + ttl_ms l)
unfolding spend
spend_written l cost now tokens = ground arith

ahead_allowed :
    (l : Limit) (cost t gap : ℕ) (b : Option Bucket)
    → 0 < l.num
    → price l cost ≤ full l
    → price l cost ≤ gap * l.num
    → (rate_check l cost (t + gap) (some (rate_check l cost t b).1)).0.allowed ≡ true
unfolding rate_check
ahead_allowed l cost t gap b pos fits wide =
    let c = spend_written l cost t (refilled l (lookup b t) t) in
    (spend_allowed l cost (t + gap) _).1 (
      omega
        (arith, refilled_later l (spend l cost t (refilled l (lookup b t) t)).1 t gap pos c.0 c.1))

-- With a positive rate, a bucket that can hold the cost, and a gap that is worth one request: from
-- any bucket, of the 2n requests of two such processes at least n get through, for every n.
pub skew_unbounded :
    (l : Limit) (cost t gap n : ℕ) (b : Option Bucket)
    → 0 < l.num
    → price l cost ≤ full l
    → price l cost ≤ gap * l.num
    → n ≤ admitted l cost b (alternating t gap n)
unfolding admitted
skew_unbounded l cost t gap zero b pos fits wide = omega arith
skew_unbounded l cost t gap (suc n) b pos fits wide =
    rw (ahead_allowed l cost t gap b pos fits wide)
      (omega (arith, skew_unbounded l cost t gap n _ pos fits wide))
