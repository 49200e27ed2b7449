-- ===== src/RateLimit/Callers.antt =====
-- The limiter at work on many callers, who share no bucket but their own.
use flashkart.Base.{
  ℕ, ◌+◌, ◌≡◌, false, String, Option, some, List, [], ◌∷◌, All, str_eq, if◌then◌else◌,
}
use flashkart.RateLimit.{Limit}
use flashkart.RateLimit.Middleware.{
  Verdict, next, next_with, too_many, Buckets, bucket_key, rate_limit,
}

abbrev pub passes : Verdict → ℕ
passes next = 1
passes (next_with limit remaining) = 1
passes (too_many limit remaining secs ms) = 0

module _ (token : String) (l : Limit) (cost : ℕ) (scope : String) (provided : Option String) where
  -- Of the requests, each under an identity at a time, those under this key that get through.
  abbrev pub through : String → List (String × ℕ) → Buckets → ℕ
  through key [] bs = 0
  through key ((id, t) ∷ hs) bs =
      let r = rate_limit token l cost scope provided t false (some id) bs in
      (if str_eq (bucket_key scope id) key then passes r.0 else 0) + through key hs r.1

  -- The times of those under this key.
  abbrev pub times_of : String → List (String × ℕ) → List ℕ
  times_of key [] = []
  times_of key ((id, t) ∷ hs) =
      if str_eq (bucket_key scope id) key then t ∷ times_of key hs else times_of key hs

  abbrev pub AllNamed : List (String × ℕ) → Type 0
  AllNamed hs = All (λ h. str_eq h.0 "" ≡ false) hs
