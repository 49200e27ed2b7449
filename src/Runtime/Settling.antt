-- ===== src/Runtime/Settling.antt =====
-- Pools of functions that begin with no units, and own none at their end, but for results that
-- excuse them.
use flashkart.Base.{
  ℕ, ◌≤◌, ◌≡◌, refl, Bool, false, List, [], ◌∷◌, map, All, arith, zeros, sum_by-zeros,
}
use flashkart.Runtime.{Proc, ret, throw, act, Result, ok, err, Tick}
use flashkart.Runtime.Pool.{run}
use flashkart.Runtime.Ledger.{Account, Safe, Covered, After, sum, run-Covered}

module _ {W R A : Type 0} (L : Account W) where
  module _ (Q : R → Result A → ℕ → Type 0) (f : R → Proc W A) where
    starts-Covered :
        (rs : List R) → All (λ r. Safe L (Q r) (f r) 0) rs → Covered L Q rs (map f rs) (zeros rs)
    unfolding zeros
    starts-Covered [] h = tt
    starts-Covered (r ∷ rs) h = (h.0, starts-Covered rs h.1)

    -- After any schedule, with a credit for each function.
    pub run-Safe :
        (rs : List R) (s : List (ℕ × Tick)) (w : W)
        → All (λ r. Safe L (Q r) (f r) 0) rs
        → L.Inv w
        → (cs : List ℕ) × After L 0 w (sum L cs) (run s (map f rs) w).1
          × Covered L Q rs (run s (map f rs) w).0 cs
    run-Safe rs s w safe sound =
        let r =
          run-Covered L Q s rs (map f rs) (zeros rs) w (starts-Covered rs safe)
            (sound, λ _. sum_by-zeros rs) in
        let zero = sum_by-zeros rs in (r.0, (r.1.0, omega (arith, r.1.1, zero), r.1.2, r.1.3), r.2)

module _ {W R A : Type 0} (L : Account W) (excused : R → A → Bool) where
  open L use {balance, is_open, Inv}

  abbrev pub Ends : R → Result A → ℕ → Type 0
  Ends r (ok a) c = excused r a ≡ false → c ≡ 0
  Ends r (err e) c = Unit {0}

  -- Each function came to a result that excuses nothing.
  abbrev pub AllWell : List R → List (Proc W A) → Type 0
  AllWell (r ∷ rs) (ret a ∷ ps) = (excused r a ≡ false) × AllWell rs ps
  AllWell (r ∷ rs) (throw e ∷ ps) = ⊥
  AllWell (r ∷ rs) (act g k ∷ ps) = ⊥
  AllWell _ _ = Unit {0}

  AllWell-sum :
      (rs : List R) (ps : List (Proc W A)) (cs : List ℕ)
      → Covered L Ends rs ps cs
      → AllWell rs ps
      → sum L cs ≡ 0
  AllWell-sum [] [] [] v h = refl
  AllWell-sum (r ∷ rs) (ret o ∷ ps) (c ∷ cs) v h =
      omega (arith, v.0 h.0, AllWell-sum rs ps cs v.1 h.1)
  AllWell-sum (r ∷ rs) (throw e ∷ ps) (c ∷ cs) v h = absurd h
  AllWell-sum (r ∷ rs) (act g k ∷ ps) (c ∷ cs) v h = absurd h
  AllWell-sum [] [] (c ∷ cs) v h = absurd v
  AllWell-sum [] (q ∷ ps) cs v h = absurd v
  AllWell-sum (r ∷ rs) [] cs v h = absurd v
  AllWell-sum (r ∷ rs) (q ∷ ps) [] v h = absurd v

  module _ (f : R → Proc W A) (rs : List R) (s : List (ℕ × Tick)) (w : W)
      (safe : All (λ r. Safe L (Ends r) (f r) 0) rs) (sound : Inv w) where
    pub run-Inv : Inv (run s (map f rs) w).1
    run-Inv = (run-Safe L Ends f rs s w safe sound).1.0

    pub balance-le : balance (run s (map f rs) w).1 ≤ balance w
    balance-le = omega (arith, (run-Safe L Ends f rs s w safe sound).1.1)

    pub balance-eq : AllWell rs (run s (map f rs) w).0 → balance (run s (map f rs) w).1 ≡ balance w
    balance-eq well =
        let r = run-Safe L Ends f rs s w safe sound in
        omega (arith, r.1.1, AllWell-sum rs _ r.0 r.2 well)
