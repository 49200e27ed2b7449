-- ===== src/Scripts/Swarm.antt =====
-- api/src/scripts/oversellDemo.ts, `runSwarm`: any number of buyers at once on one key.
pub mod Atomic
pub mod Naive
use flashkart.Base.{ℕ, zero, suc, ◌+◌, ◌-◌, Bool, true, false, List, [], ◌∷◌, length}
use flashkart.Runtime.{ret, throw, act}
use flashkart.Store.{Action}

-- `Array.from({ length: BUYERS }, () => buy(key))`
abbrev pub swarm : ℕ → Action Bool → List (Action Bool)
swarm zero buy = []
swarm (suc n) buy = buy ∷ swarm n buy

-- `results.filter(Boolean).length`, of those that have answered so far.
abbrev pub sold : List (Action Bool) → ℕ
sold [] = 0
sold (ret true ∷ ps) = suc (sold ps)
sold (ret false ∷ ps) = sold ps
sold (throw e ∷ ps) = sold ps
sold (act g k ∷ ps) = sold ps

-- `Promise.all` has its results: nobody is pending or failed.
abbrev pub AllAnswered : List (Action Bool) → Type 0
AllAnswered [] = Unit {0}
AllAnswered (ret b ∷ ps) = AllAnswered ps
AllAnswered (throw e ∷ ps) = ⊥
AllAnswered (act g k ∷ ps) = ⊥

-- `Math.max(0, sold - STOCK)`
abbrev pub oversold : ℕ → List (Action Bool) → ℕ
oversold stock ps = sold ps - stock
