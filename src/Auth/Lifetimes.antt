-- ===== src/Auth/Lifetimes.antt =====
-- `ttlToSeconds` of api/src/auth/tokens.ts reads what JWT_ACCESS_TTL and JWT_REFRESH_TTL spell.
use Prim.Native.String.{[], ◌∷◌}
use Prim.Native.Char.{Char, char}
use flashkart.Base.{
  ℕ, zero, suc, ◌+◌, ◌*◌, ◌/◌, ◌%◌, ◌≤◌, ◌<◌, ◌≡◌, ap, ◌∙◌, Bool, true, false, String, some,
  Bool-cases, inl, inr, ltb, arith, digit, decimal_from, decimal, code-digit,
}
use flashkart.Auth.Access.{ttl_to_seconds, ttl_from}

-- The units of a lifetime: its letter, and its length.
pub data TimeUnit : Type 0 where
  seconds minutes hours days : TimeUnit

abbrev letter : TimeUnit → Char
letter seconds = char 115 tt
letter minutes = char 109 tt
letter hours = char 104 tt
letter days = char 100 tt

abbrev pub length_in_seconds : TimeUnit → ℕ
length_in_seconds seconds = 1
length_in_seconds minutes = 60
length_in_seconds hours = 3600
length_in_seconds days = 86400

abbrev pub lifetime : ℕ → TimeUnit → String
lifetime n u = decimal n (letter u ∷ [])

ttl_from-digit :
    (m n : ℕ) (seen : Bool) (rest : String)
    → n < 10
    → ttl_from m seen (digit n ∷ rest) ≡ ttl_from (m * 10 + n) true rest
ttl_from-digit m n seen rest h = rw (code-digit n h) (ground arith)

-- Where no digit came before, the number begins.
ttl_from-first :
    (n : ℕ) (seen : Bool) (rest : String)
    → n < 10
    → ttl_from 0 seen (digit n ∷ rest) ≡ ttl_from n true rest
ttl_from-first n seen rest h =
    ttl_from-digit 0 n seen rest h ∙ ap (λ k. ttl_from k true rest) (omega arith)

ttl_from-decimal_from :
    (fuel n : ℕ) (seen : Bool) (rest : String)
    → n ≤ fuel
    → ttl_from 0 seen (decimal_from fuel n rest) ≡ ttl_from n true rest
unfolding decimal_from
ttl_from-decimal_from zero n seen rest h = ttl_from-first n seen rest (omega arith)
ttl_from-decimal_from (suc fuel) n seen rest h = elim (Bool-cases (ltb n 10)) [
  | inl e ↦ rw e (ttl_from-first n seen rest (ground (arith, e)))
  | inr e ↦ rw e (
      ttl_from-decimal_from fuel (n / 10) seen (digit (n % 10) ∷ rest) (ground (arith, e))
      ∙ (ttl_from-digit (n / 10) (n % 10) true rest (omega arith)
          ∙ ap (λ k. ttl_from k true rest) (omega arith)))
]

-- A number in decimal before one of the letters s, m, h and d is read as that many units.
pub ttl_to_seconds-lifetime :
    (n : ℕ) (u : TimeUnit) → ttl_to_seconds (lifetime n u) ≡ some (n * length_in_seconds u)
unfolding decimal
ttl_to_seconds-lifetime n seconds = ttl_from-decimal_from n n false _ (omega arith)
ttl_to_seconds-lifetime n minutes = ttl_from-decimal_from n n false _ (omega arith)
ttl_to_seconds-lifetime n hours = ttl_from-decimal_from n n false _ (omega arith)
ttl_to_seconds-lifetime n days = ttl_from-decimal_from n n false _ (omega arith)
