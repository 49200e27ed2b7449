-- ===== src/Runtime/Shares/Pools.antt =====
-- Accounting with a fixed total, for a pool of functions and any schedule.
use flashkart.Base.{ℕ, zero, suc, List, [], ◌∷◌, map, All, arith, sum_by, zeros, sum_by-zeros}
use flashkart.Runtime.{Proc, ret, throw, act, Tick, Result, ok, err}
use flashkart.Runtime.Pool.{advance, step_at, run}
use flashkart.Runtime.Shares.{Reserve, Before, After, After-keep, later, Safe}

module _ {W : Type 0} (L : Reserve W) where
  open L use {Env, Keeps}

  abbrev pub sum : List ℕ → ℕ
  sum = sum_by (λ n. n)

  abbrev pub Covered :
      {R A : Type 0}
      → (R → Result A → ℕ → W → Type 0)
      → List R
      → List (Proc W A)
      → List ℕ
      → W
      → Type 0
  Covered Q [] [] [] w = Unit {0}
  Covered Q (r ∷ rs) (p ∷ ps) (c ∷ cs) w = Safe L (Q r) p c w × Covered Q rs ps cs w
  Covered Q _ _ _ w = ⊥

  module _ {R A : Type 0} (Q : R → Result A → ℕ → W → Type 0)
      (stable : (r : R) (x : Result A) (c : ℕ) (w v : W) → Q r x c w → Keeps w v → Q r x c v) where
    Safe-later :
        (r : R) (p : Proc W A) (c : ℕ) (w v : W)
        → Safe L (Q r) p c w
        → Keeps w v
        → Safe L (Q r) p c v
    Safe-later r (ret a) c w v s k = stable r (ok a) c w v s k
    Safe-later r (throw e) c w v s k = stable r (err e) c w v s k
    Safe-later r (act g f) c w v s k = λ t u m n b. s t u (L.keeps-trans w v u k m) n b

    Covered-later :
        (rs : List R) (ps : List (Proc W A)) (cs : List ℕ) (w v : W)
        → Covered Q rs ps cs w
        → Keeps w v
        → Covered Q rs ps cs v
    Covered-later [] [] [] w v h k = tt
    Covered-later (r ∷ rs) (p ∷ ps) (c ∷ cs) w v h k =
        (Safe-later r p c w v h.0 k, Covered-later rs ps cs w v h.1 k)
    Covered-later [] [] (c ∷ cs) w v h k = absurd h
    Covered-later [] (p ∷ ps) cs w v h k = absurd h
    Covered-later (r ∷ rs) [] cs w v h k = absurd h
    Covered-later (r ∷ rs) (p ∷ ps) [] w v h k = absurd h

    advance-Safe :
        (r : R) (t : Tick) (p : Proc W A) (c : ℕ) (w : W)
        → Safe L (Q r) p c w
        → Env t
        → Before L c w
        → (c' : ℕ) × After L c w c' (advance t p w).1
          × Safe L (Q r) (advance t p w).0 c' (advance t p w).1
    unfolding advance
    advance-Safe r t (ret a) c w s v b = (c, After-keep L c w b, s)
    advance-Safe r t (throw e) c w s v b = (c, After-keep L c w b, s)
    advance-Safe r t (act g k) c w s v b = s t w (L.keeps-refl w) v b

    step_at-Covered :
        (i : ℕ) (t : Tick) (rs : List R) (ps : List (Proc W A)) (cs : List ℕ) (w : W)
        → Covered Q rs ps cs w
        → Env t
        → Before L (sum cs) w
        → (cs' : List ℕ) × After L (sum cs) w (sum cs') (step_at i t ps w).1
          × Covered Q rs (step_at i t ps w).0 cs' (step_at i t ps w).1
    unfolding step_at
    step_at-Covered i t [] [] [] w c v b = ([], After-keep L 0 w b, c)
    step_at-Covered zero t (r ∷ rs) (p ∷ ps) (c ∷ cs) w h v b =
        let s = advance-Safe r t p c w h.0 v (b.0, omega (arith, b.1)) in
        (
          s.0 ∷ cs,
          (s.1.0, omega (arith, s.1.1), s.1.2),
          (s.2, Covered-later rs ps cs w _ h.1 s.1.2),
        )
    step_at-Covered (suc i) t (r ∷ rs) (p ∷ ps) (c ∷ cs) w h v b =
        let s = step_at-Covered i t rs ps cs w h.1 v (b.0, omega (arith, b.1)) in
        (c ∷ s.0, (s.1.0, omega (arith, s.1.1), s.1.2), (Safe-later r p c w _ h.0 s.1.2, s.2))
    step_at-Covered i t [] [] (c ∷ cs) w h v b = absurd h
    step_at-Covered i t [] (p ∷ ps) cs w h v b = absurd h
    step_at-Covered i t (r ∷ rs) [] cs w h v b = absurd h
    step_at-Covered i t (r ∷ rs) (p ∷ ps) [] w h v b = absurd h

    run-Covered :
        (s : List (ℕ × Tick)) (rs : List R) (ps : List (Proc W A)) (cs : List ℕ) (w : W)
        → Covered Q rs ps cs w
        → All (λ e. Env e.1) s
        → Before L (sum cs) w
        → (cs' : List ℕ) × After L (sum cs) w (sum cs') (run s ps w).1
          × Covered Q rs (run s ps w).0 cs' (run s ps w).1
    unfolding run
    run-Covered [] rs ps cs w h v b = (cs, After-keep L (sum cs) w b, h)
    run-Covered ((i, t) ∷ s) rs ps cs w h v b =
        let r = step_at-Covered i t rs ps cs w h v.0 b in
        let r' =
          run-Covered s rs (step_at i t ps w).0 r.0 (step_at i t ps w).1 r.2 v.1
            (r.1.0, omega (arith, r.1.1, b.1)) in
        (
          r'.0,
          (
            r'.1.0,
            omega (arith, r.1.1, r'.1.1),
            later L w (step_at i t ps w).1 _ (sum r.0) (sum r'.0) r.1.2 r'.1,
          ),
          r'.2,
        )

    module _ (f : R → Proc W A) (w : W) where
      starts-Covered :
          (rs : List R)
          → All (λ r. Safe L (Q r) (f r) 0 w) rs
          → Covered Q rs (map f rs) (zeros rs) w
      unfolding zeros
      starts-Covered [] h = tt
      starts-Covered (r ∷ rs) h = (h.0, starts-Covered rs h.1)

      -- Functions that begin with no units, after any schedule in such environments.
      pub run-Safe :
          (rs : List R) (s : List (ℕ × Tick))
          → All (λ r. Safe L (Q r) (f r) 0 w) rs
          → All (λ e. Env e.1) s
          → Before L 0 w
          → (cs : List ℕ) × After L 0 w (sum cs) (run s (map f rs) w).1
            × Covered Q rs (run s (map f rs) w).0 cs (run s (map f rs) w).1
      run-Safe rs s safe env b =
          let zero = sum_by-zeros rs in
          let r =
            run-Covered s rs (map f rs) (zeros rs) w (starts-Covered rs safe) env
              (b.0, omega (arith, b.1, zero)) in
          (r.0, (r.1.0, omega (arith, r.1.1, zero), r.1.2), r.2)
