-- ===== src/Tests/Rush.antt =====
-- Five buyers of two units, with the two buyers of the demonstration.
use flashkart.Base.{ℕ, ◌-◌, ◌≡◌, refl, min, String, some, List, [], ◌∷◌, ◌++◌, arith}
use flashkart.Runtime.{Tick}
use flashkart.Runtime.Pool.{run, step_at, advance}
use flashkart.Store.{World}
use flashkart.Scripts.{naive_buy, atomic_buy, set_stock}
use flashkart.Scripts.Swarm.{swarm, sold, oversold, AllAnswered}
use flashkart.Scripts.Swarm.Atomic.{swarm_exact, swarm_never_oversells}
use flashkart.Scripts.Swarm.Naive.{round, naive_oversells}
use flashkart.Tests.Setup.{shop, at}

abbrev key : String
key = "demo:stock"

abbrev primed : World
primed = set_stock shop key 2

abbrev turns : List (ℕ × Tick)
turns = (3, at 1 0) ∷ (0, at 1 0) ∷ (4, at 2 0) ∷ (1, at 2 0) ∷ (2, at 3 0) ∷ []

all_answered : AllAnswered (run turns (swarm 5 (atomic_buy key)) primed).0
unfolding run step_at advance
all_answered = tt

swarm_exact_example :
    let r = run turns (swarm 5 (atomic_buy key)) primed in
    (sold r.0 ≡ min 2 5) × (r.1.stock key ≡ some (2 - 5))
swarm_exact_example = swarm_exact key 5 2 turns primed refl all_answered

swarm_never_oversells_example : oversold 2 (run turns (swarm 5 (atomic_buy key)) primed).0 ≡ 0
swarm_never_oversells_example = swarm_never_oversells key 5 2 turns primed refl

naive_oversells_example :
    let r =
      run
        (round (at 1 0) 5 ++ (round (at 1 0) 5 ++ round (at 1 0) 5))
        (swarm 5 (naive_buy key))
        primed in
    (sold r.0 ≡ 5) × (r.1.stock key ≡ some 1)
naive_oversells_example = naive_oversells key 2 4 (at 1 0) primed refl (omega arith) refl
