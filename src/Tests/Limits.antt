-- ===== src/Tests/Limits.antt =====
-- A bucket of two tokens that refills one token a second.
use flashkart.Base.{ℕ, ◌+◌, ◌*◌, ◌≤◌, String, List, none, [], ◌∷◌, arith}
use flashkart.RateLimit.{Limit}
use flashkart.RateLimit.Bounds.{admitted, admitted_bound}
use flashkart.RateLimit.Skew.{alternating, skew_unbounded}
use flashkart.RateLimit.Middleware.{Buckets}

abbrev pair_a_second : Limit
pair_a_second = record { capacity = 2; num = 1; den = 1 }

admitted_bound_example :
    admitted pair_a_second 1 none (0 ∷ 100 ∷ 200 ∷ 1300 ∷ []) * 1000 ≤ 2000 + 1300
admitted_bound_example =
    admitted_bound pair_a_second 1 0 (100 ∷ 200 ∷ 1300 ∷ []) (omega arith)
      (omega arith, (omega arith, (omega arith, tt)))

skew_unbounded_example : 5 ≤ admitted pair_a_second 1 none (alternating 0 1000 5)
skew_unbounded_example =
    skew_unbounded pair_a_second 1 0 1000 5 none (omega arith) (omega arith) (omega arith)

abbrev buckets : Buckets
buckets = λ k. none

abbrev callers : List (String × ℕ)
callers = ("u1", 0) ∷ ("u2", 50) ∷ ("u1", 100) ∷ ("u1", 200) ∷ ("u2", 250) ∷ ("u1", 1300) ∷ []
