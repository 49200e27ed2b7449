-- ===== src/Runtime/Ledger.antt =====
-- Accounting for concurrent functions. Each pending function owns some units, its credit, and each
-- of its commands moves units between the store and that credit. `Safe` says so of one function,
-- with a postcondition on its result and its last credit; the rules below put functions together.
use flashkart.Base.{
  ℕ, zero, suc, ◌+◌, ◌≡◌, refl, Bool, true, false, List, [], ◌∷◌, arith, sum_by, inl, inr,
  Bool-cases, sym, ◌∙◌, true_not_false,
}
use flashkart.Runtime.{
  Proc, ret, throw, act, Tick, Result, ok, err, Err, lift, outcome, fallible, ◌>>=◌, try_catch,
}
use flashkart.Runtime.Pool.{advance, step_at, run}

-- `balance` counts the units in the store, and a store that is not open has lent out none.
pub record Account (W : Type 0) : Type 1 where
  pub balance : W → ℕ
  pub is_open : W → Bool
  pub Inv : W → Type 0

module _ {W : Type 0} (L : Account W) where
  open L use {balance, is_open, Inv}

  abbrev pub Before : ℕ → W → Type 0
  Before c w = Inv w × (is_open w ≡ false → c ≡ 0)

  abbrev pub After : ℕ → W → ℕ → W → Type 0
  After c w c' w' =
      Inv w'
      × (balance w' + c' ≡ balance w + c)
      × (is_open w ≡ true → is_open w' ≡ true)
      × (is_open w' ≡ false → c' ≡ 0)

  abbrev pub Safe : {A : Type 0} → (Result A → ℕ → Type 0) → Proc W A → ℕ → Type 0
  Safe Q (ret a) c = Q (ok a) c
  Safe Q (throw e) c = Q (err e) c
  Safe Q (act g k) c =
      (t : Tick) (w : W) → Before c w → (c' : ℕ) × After c w c' (g t w) × Safe Q (k t w) c'

  pub Safe-bind :
      {A B : Type 0} (Q : Result A → ℕ → Type 0) (R : Result B → ℕ → Type 0) (p : Proc W A)
      (f : A → Proc W B) (c : ℕ)
      → Safe Q p c
      → ((a : A) (c' : ℕ) → Q (ok a) c' → Safe R (f a) c')
      → ((e : Err) (c' : ℕ) → Q (err e) c' → R (err e) c')
      → Safe R (p >>= f) c
  Safe-bind Q R (ret a) f c s good bad = good a c s
  Safe-bind Q R (throw e) f c s good bad = bad e c s
  Safe-bind Q R (act g k) f c s good bad =
      λ t w b. let r = s t w b in (r.0, r.1, Safe-bind Q R (k t w) f r.0 r.2 good bad)

  pub Safe-try_catch :
      {A : Type 0} (Q R : Result A → ℕ → Type 0) (p : Proc W A) (h : Err → Proc W A) (c : ℕ)
      → Safe Q p c
      → ((a : A) (c' : ℕ) → Q (ok a) c' → R (ok a) c')
      → ((e : Err) (c' : ℕ) → Q (err e) c' → Safe R (h e) c')
      → Safe R (try_catch p h) c
  Safe-try_catch Q R (ret a) h c s good bad = good a c s
  Safe-try_catch Q R (throw e) h c s good bad = bad e c s
  Safe-try_catch Q R (act g k) h c s good bad =
      λ t w b. let r = s t w b in (r.0, r.1, Safe-try_catch Q R (k t w) h r.0 r.2 good bad)

  pub Safe-weaken :
      {A : Type 0} (Q R : Result A → ℕ → Type 0) (p : Proc W A) (c : ℕ)
      → Safe Q p c
      → ((r : Result A) (c' : ℕ) → Q r c' → R r c')
      → Safe R p c
  Safe-weaken Q R (ret a) c s h = h (ok a) c s
  Safe-weaken Q R (throw e) c s h = h (err e) c s
  Safe-weaken Q R (act g k) c s h =
      λ t w b. let r = s t w b in (r.0, r.1, Safe-weaken Q R (k t w) r.0 r.2 h)

  pub After-keep : (c : ℕ) (w : W) → Before c w → After c w c w
  After-keep c w b = (b.0, refl, λ h. h, b.1)

  -- A command keeps the account if its success does: its failure changes nothing.
  pub Safe-fallible :
      {A : Type 0} (Q : Result A → ℕ → Type 0) (e : Err) (f : Tick → W → A × W) (c : ℕ)
      → Q (err e) c
      → ((t : Tick) (w : W) → Before c w → (c' : ℕ) × After c w c' (f t w).1 × Q (ok (f t w).0) c')
      → Safe Q (fallible e f) c
  Safe-fallible Q e f c bad good = λ t w b. split t w b t.fault
    where
      split :
          (t : Tick) (w : W)
          → Before c w
          → (fault : Bool)
          → (c' : ℕ) × After c w c' (outcome e fault (f t w) w).1
            × Safe Q (lift (outcome e fault (f t w) w).0) c'
      split t w b true = (c, After-keep c w b, bad)
      split t w b false = good t w b

  -- A command that cannot fail, and leaves the store alone.
  pub Safe-local :
      {A : Type 0} (Q : Result A → ℕ → Type 0) (k : Tick → W → Proc W A) (c : ℕ)
      → ((t : Tick) (w : W) → Safe Q (k t w) c)
      → Safe Q (act (λ t w. w) k) c
  Safe-local Q k c s = λ t w b. (c, After-keep c w b, s t w)

  -- What one function does is all right for the others, whose credit is `d`.
  After-frame :
      (c d : ℕ) (w : W) (c' : ℕ) (w' : W)
      → Before (c + d) w
      → After c w c' w'
      → After (c + d) w (c' + d) w'
  After-frame c d w c' w' b a = (
    a.0,
    omega (arith, a.1),
    a.2,
    λ closed. elim (Bool-cases (is_open w)) [
      | inl open_before ↦ absurd (true_not_false (sym (a.2 open_before) ∙ closed))
      | inr closed_before ↦ omega (arith, a.3 closed, b.1 closed_before)
    ],
  )

  After-trans : (c c₁ c₂ : ℕ) (w w₁ w₂ : W) → After c w c₁ w₁ → After c₁ w₁ c₂ w₂ → After c w c₂ w₂
  After-trans c c₁ c₂ w w₁ w₂ a b = (b.0, omega (arith, a.1, b.1), λ h. b.2 (a.2 h), b.3)

  Before-part : (c d : ℕ) (w : W) → Before (c + d) w → Before c w
  Before-part c d w b = (b.0, λ h. omega (arith, b.1 h))

  abbrev pub sum : List ℕ → ℕ
  sum = sum_by (λ n. n)

  -- Pending functions with the requests that they serve, and a credit for each.
  abbrev pub Covered :
      {R A : Type 0} → (R → Result A → ℕ → Type 0) → List R → List (Proc W A) → List ℕ → Type 0
  Covered Q [] [] [] = Unit {0}
  Covered Q (r ∷ rs) (p ∷ ps) (c ∷ cs) = Safe (Q r) p c × Covered Q rs ps cs
  Covered Q _ _ _ = ⊥

  advance-Safe :
      {A : Type 0} (Q : Result A → ℕ → Type 0) (t : Tick) (p : Proc W A) (c : ℕ) (w : W)
      → Safe Q p c
      → Before c w
      → (c' : ℕ) × After c w c' (advance t p w).1 × Safe Q (advance t p w).0 c'
  unfolding advance
  advance-Safe Q t (ret a) c w s b = (c, After-keep c w b, s)
  advance-Safe Q t (throw e) c w s b = (c, After-keep c w b, s)
  advance-Safe Q t (act g k) c w s b = s t w b

  After-swap :
      (c d : ℕ) (w : W) (d' : ℕ) (w' : W)
      → After (d + c) w (d' + c) w'
      → After (c + d) w (c + d') w'
  After-swap c d w d' w' a = (a.0, omega (arith, a.1), a.2, λ h. omega (arith, a.3 h))

  Before-swap : (c d : ℕ) (w : W) → Before (c + d) w → Before (d + c) w
  Before-swap c d w b = (b.0, λ h. omega (arith, b.1 h))

  step_at-Covered :
      {R A : Type 0} (Q : R → Result A → ℕ → Type 0) (i : ℕ) (t : Tick) (rs : List R)
      (ps : List (Proc W A)) (cs : List ℕ) (w : W)
      → Covered Q rs ps cs
      → Before (sum cs) w
      → (cs' : List ℕ) × After (sum cs) w (sum cs') (step_at i t ps w).1
        × Covered Q rs (step_at i t ps w).0 cs'
  unfolding step_at
  step_at-Covered Q i t [] [] [] w v b = ([], After-keep 0 w b, v)
  step_at-Covered Q zero t (r ∷ rs) (p ∷ ps) (c ∷ cs) w v b =
      let s = advance-Safe (Q r) t p c w v.0 (Before-part c (sum cs) w b) in
      (s.0 ∷ cs, After-frame c (sum cs) w s.0 _ b s.1, (s.2, v.1))
  step_at-Covered Q (suc i) t (r ∷ rs) (p ∷ ps) (c ∷ cs) w v b =
      let b' = Before-swap c (sum cs) w b in
      let s = step_at-Covered Q i t rs ps cs w v.1 (Before-part (sum cs) c w b') in
      (
        c ∷ s.0,
        After-swap c (sum cs) w (sum s.0) _ (After-frame (sum cs) c w (sum s.0) _ b' s.1),
        (v.0, s.2),
      )
  step_at-Covered Q i t [] [] (c ∷ cs) w v b = absurd v
  step_at-Covered Q i t [] (p ∷ ps) cs w v b = absurd v
  step_at-Covered Q i t (r ∷ rs) [] cs w v b = absurd v
  step_at-Covered Q i t (r ∷ rs) (p ∷ ps) [] w v b = absurd v

  -- Whatever the schedule does, the units in the store and those of the functions add up.
  pub run-Covered :
      {R A : Type 0} (Q : R → Result A → ℕ → Type 0) (s : List (ℕ × Tick)) (rs : List R)
      (ps : List (Proc W A)) (cs : List ℕ) (w : W)
      → Covered Q rs ps cs
      → Before (sum cs) w
      → (cs' : List ℕ) × After (sum cs) w (sum cs') (run s ps w).1 × Covered Q rs (run s ps w).0 cs'
  unfolding run
  run-Covered Q [] rs ps cs w v b = (cs, After-keep (sum cs) w b, v)
  run-Covered Q ((i, t) ∷ s) rs ps cs w v b =
      let r = step_at-Covered Q i t rs ps cs w v b in
      let r' =
        run-Covered Q s rs (step_at i t ps w).0 r.0 (step_at i t ps w).1 r.2 (r.1.0, r.1.3) in
      (r'.0, After-trans (sum cs) (sum r.0) (sum r'.0) w _ _ r.1 r'.1, r'.2)
