-- ===== src/Scripts/Swarm/Naive.antt =====
-- The swarm of naive buyers oversells: all of them read the key before any of them writes it.
use flashkart.Base.{
  ℕ, zero, suc, ◌-◌, ◌<◌, ◌≡◌, refl, ap, ◌∙◌, Bool, true, false, String, some, List, [], ◌∷◌, ◌++◌,
  map, lt→ltb, eq_refl, if◌then◌else◌,
}
use flashkart.Runtime.{ret, Tick, redis_error, outcome, lift, ◌>>=◌}
use flashkart.Runtime.Pool.{advance, step_at, run}
use flashkart.Store.{World, Action, redis, sleep}
use flashkart.Scripts.{naive_buy, naive_write, number, set_stock}
use flashkart.Scripts.Swarm.{swarm, sold}

abbrev later : ℕ × Tick → ℕ × Tick
later (i, t) = (suc i, t)

-- A round: each of `n` buyers runs its next command.
abbrev pub round : Tick → ℕ → List (ℕ × Tick)
round t zero = []
round t (suc n) = (0, t) ∷ map later (round t n)

abbrev times : ℕ → (World → World) → World → World
times zero f w = w
times (suc n) f w = times n f (f w)

run-later :
    (s : List (ℕ × Tick)) (p : Action Bool) (ps : List (Action Bool)) (w : World)
    → run (map later s) (p ∷ ps) w ≡ (p ∷ (run s ps w).0, (run s ps w).1)
unfolding run step_at
run-later [] p ps w = refl
run-later ((i, t) ∷ s) p ps w = run-later s p (step_at i t ps w).0 (step_at i t ps w).1

run-append :
    (s s' : List (ℕ × Tick)) (ps : List (Action Bool)) (w : World)
    → run (s ++ s') ps w ≡ run s' (run s ps w).0 (run s ps w).1
unfolding run
run-append [] s' ps w = refl
run-append ((i, t) ∷ s) s' ps w = run-append s s' _ _

-- Buyers who all do the same in a round.
run-round :
    (t : Tick) (p q : Action Bool) (f : World → World) (P : World → Type 0)
    → ((w : World) → P w → (advance t p w ≡ (q, f w)) × P (f w))
    → (n : ℕ) (w : World) → P w
    → run (round t n) (swarm n p) w ≡ (swarm n q, times n f w)
unfolding run step_at
run-round t p q f P h zero w x = refl
run-round t p q f P h (suc n) w x =
    ap (λ (a : Action Bool × World). run (map later (round t n)) (a.0 ∷ swarm n p) a.1) (h w x).0
    ∙ run-later (round t n) q (swarm n p) (f w)
    ∙ ap (λ (r : List (Action Bool) × World). (q ∷ r.0, r.1))
        (run-round t p q f P h n (f w) (h w x).1)

module _ (key : String) (stock : ℕ) where
  abbrev waits : Action Bool
  waits = sleep >>= (λ _. redis (λ t w. (tt, set_stock w key (stock - 1)))) >>= (λ u. ret true)

  abbrev writes : Action Bool
  writes = redis (λ t w. (tt, set_stock w key (stock - 1))) >>= (λ u. ret true)

  abbrev Primed : World → Type 0
  Primed w = w.stock key ≡ some stock

  idle : (n : ℕ) (w : World) → times n (λ v. v) w ≡ w
  idle zero w = refl
  idle (suc n) w = idle n w

  written :
      (n : ℕ) (w : World)
      → (times (suc n) (λ v. set_stock v key (stock - 1)) w).stock key ≡ some (stock - 1)
  written zero w = rw (eq_refl key) refl
  written (suc n) w = written n (set_stock w key (stock - 1))

  module _ (t : Tick) (answers : t.fault ≡ false) (left : 0 < stock) where
    reads : (w : World) → Primed w → (advance t (naive_buy key) w ≡ (waits, w)) × Primed w
    unfolding advance
    reads w e = (
      ap
            (λ b.
              let r = outcome redis_error b (number (w.stock key), w) w in
              (lift r.0 >>= naive_write key, r.1))
            answers
          ∙ ap (λ old. (naive_write key (number old), w)) e
          ∙ ap (λ b. (if b then waits else ret false, w)) (lt→ltb 0 stock left),
      e,
    )

    sleeps : (w : World) → Primed w → (advance t waits w ≡ (writes, w)) × Primed w
    unfolding advance
    sleeps w e = (refl, e)

    sets :
        (w : World)
        → Unit {0}
        → (advance t writes w ≡ (ret true, set_stock w key (stock - 1))) × Unit {0}
    unfolding advance
    sets w e = (
      ap
          (λ b.
            let r = outcome redis_error b (tt, set_stock w key (stock - 1)) w in
            (lift r.0 >>= (λ u. ret true), r.1))
          answers,
      tt,
    )

    abbrev rush : ℕ → List (ℕ × Tick)
    rush n = round t n ++ (round t n ++ round t n)

    rushed :
        (n : ℕ) (w : World)
        → Primed w
        → run (rush n) (swarm n (naive_buy key)) w
          ≡ (swarm n (ret true), times n (λ v. set_stock v key (stock - 1)) w)
    rushed n w e =
        run-append (round t n) (round t n ++ round t n) _ w
        ∙ ap (λ (r : List (Action Bool) × World). run (round t n ++ round t n) r.0 r.1)
            (run-round t _ _ (λ v. v) Primed reads n w e ∙ ap (λ v. (swarm n waits, v)) (idle n w))
        ∙ run-append (round t n) (round t n) _ w
        ∙ ap (λ (r : List (Action Bool) × World). run (round t n) r.0 r.1)
            (run-round t _ _ (λ v. v) Primed sleeps n w e
              ∙ ap (λ v. (swarm n writes, v)) (idle n w))
        ∙ run-round t _ _ _ (λ v. Unit {0}) sets n w tt

sold-swarm : (n : ℕ) → sold (swarm n (ret true)) ≡ n
sold-swarm zero = refl
sold-swarm (suc n) = ap suc (sold-swarm n)

-- When the key holds a positive number and no command fails, any number of naive buyers who read,
-- wait and write in rounds all buy, and the key has lost one unit.
pub naive_oversells :
    (key : String) (stock n : ℕ) (t : Tick) (w : World)
    → w.stock key ≡ some stock
    → 0 < stock
    → t.fault ≡ false
    → let r =
        run
          (round t (suc n) ++ (round t (suc n) ++ round t (suc n)))
          (swarm (suc n) (naive_buy key))
          w in
      (sold r.0 ≡ suc n) × (r.1.stock key ≡ some (stock - 1))
naive_oversells key stock n t w primed left answers =
    let r = rushed key stock t answers left (suc n) w primed in
    (
      ap (λ (x : List (Action Bool) × World). sold x.0) r ∙ sold-swarm (suc n),
      ap (λ (x : List (Action Bool) × World). x.1.stock key) r ∙ written key stock n w,
    )
