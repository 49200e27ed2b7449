-- ===== src/Runtime/Pool.antt =====
-- Concurrent async functions: a pool of them, and a schedule that says whose next command the
-- store executes, and in which environment. Every interleaving is such a schedule.
use flashkart.Base.{ℕ, zero, suc, List, [], ◌∷◌}
use flashkart.Runtime.{Proc, ret, throw, act, Tick}

module _ {W A : Type 0} where
  unfoldable pub advance : Tick → Proc W A → W → Proc W A × W
  advance t (ret a) w = (ret a, w)
  advance t (throw e) w = (throw e, w)
  advance t (act g k) w = (k t w, g t w)

  unfoldable pub step_at : ℕ → Tick → List (Proc W A) → W → List (Proc W A) × W
  unfolding advance
  step_at i t [] w = ([], w)
  step_at zero t (p ∷ ps) w = let (p', w') = advance t p w in (p' ∷ ps, w')
  step_at (suc i) t (p ∷ ps) w = let (ps', w') = step_at i t ps w in (p ∷ ps', w')

  unfoldable pub run : List (ℕ × Tick) → List (Proc W A) → W → List (Proc W A) × W
  unfolding step_at
  run [] ps w = (ps, w)
  run ((i, t) ∷ s) ps w = let (ps', w') = step_at i t ps w in run s ps' w'

  -- One function alone, at the given environments.
  unfoldable pub run_alone : List Tick → Proc W A → W → Proc W A × W
  unfolding advance
  run_alone [] p w = (p, w)
  run_alone (t ∷ ts) p w = let (p', w') = advance t p w in run_alone ts p' w'
