-- ===== src/Scripts/Swarm/Atomic.antt =====
-- The swarm of atomic buyers sells what there is, and no more.
use flashkart.Base.{
  ℕ, zero, suc, ◌+◌, ◌-◌, ◌≤◌, ◌≡◌, refl, ◌∙◌, ◌⊎◌, inl, inr, min, Bool, true, false, Bool-cases,
  String, Option, some, List, [], ◌∷◌, length, All, leb, arith, eq_refl, ap, subst, sym,
}
use flashkart.Runtime.{ret, throw, act, Tick, Err, redis_error, outcome, lift, ◌>>=◌}
use flashkart.Runtime.Pool.{advance, step_at, run}
use flashkart.Store.{World, Action}
use flashkart.Scripts.{atomic_buy, demo_lua, is_bought}
use flashkart.Scripts.Swarm.{swarm, sold, AllAnswered, oversold}

-- Those who were told that it is sold out.
abbrev refused : List (Action Bool) → ℕ
refused [] = 0
refused (ret true ∷ ps) = refused ps
refused (ret false ∷ ps) = suc (refused ps)
refused (throw e ∷ ps) = refused ps
refused (act g k ∷ ps) = refused ps

answered-length : (ps : List (Action Bool)) → AllAnswered ps → sold ps + refused ps ≡ length ps
answered-length [] h = refl
answered-length (ret true ∷ ps) h = omega (arith, answered-length ps h)
answered-length (ret false ∷ ps) h = omega (arith, answered-length ps h)
answered-length (throw e ∷ ps) h = absurd h
answered-length (act g k ∷ ps) h = absurd h

module _ (key : String) where
  data Stage : Action Bool → Type 0 where
    waiting : Stage (atomic_buy key)
    answered : (b : Bool) → Stage (ret b)
    failed : (e : Err) → Stage (throw e)

  -- From `n` units to `n'`: what left the key was sold, and a refusal means that nothing is left.
  record Moves (n n' : ℕ) (ps ps' : List (Action Bool)) : Type 0 where
    sums : n' + sold ps' ≡ n + sold ps
    fair : (refused ps' ≡ refused ps) ⊎ (n' ≡ 0)
    down : n' ≤ n
    same : length ps' ≡ length ps

  abbrev Stepped : ℕ → List (Action Bool) → List (Action Bool) × World → Type 0
  Stepped n ps r = (n' : ℕ) × (r.1.stock key ≡ some n') × Moves n n' ps r.0 × All Stage r.0

  abbrev turn : Bool → Option ℕ → World → Action Bool × World
  turn fault old w =
      let r = outcome redis_error fault (demo_lua old w key) w in
      (lift r.0 >>= (λ reply. ret (is_bought reply)), r.1)

  turn-Stepped :
      (fault : Bool) (n : ℕ) (w : World) (ps : List (Action Bool))
      → w.stock key ≡ some n
      → All Stage ps
      → let r = turn fault (some n) w in Stepped n (atomic_buy key ∷ ps) (r.0 ∷ ps, r.1)
  turn-Stepped true n w ps e a = (
    n,
    e,
    record { sums = refl; fair = inl refl; down = omega arith; same = refl },
    (failed redis_error, a),
  )
  turn-Stepped false n w ps e a = elim (Bool-cases (leb n 0)) [
    | inl h ↦ rw h (
      n,
      e,
      record { sums = refl; fair = inr (ground (arith, h)); down = omega arith; same = refl },
      (answered false, a),
    )
    | inr h ↦ rw h (
      n - 1,
      rw (eq_refl key) refl,
      record { sums = ground (arith, h); fair = inl refl; down = omega arith; same = refl },
      (answered true, a),
    )
  ]

  stays : (n : ℕ) (ps : List (Action Bool)) → Moves n n ps ps
  stays n ps = record { sums = refl; fair = inl refl; down = omega arith; same = refl }

  head-Stepped :
      (t : Tick) (p : Action Bool) (ps : List (Action Bool)) (n : ℕ) (w : World)
      → w.stock key ≡ some n
      → Stage p
      → All Stage ps
      → let r = advance t p w in Stepped n (p ∷ ps) (r.0 ∷ ps, r.1)
  unfolding advance
  head-Stepped t p ps n w e waiting a =
      subst (λ old. let r = turn t.fault old w in Stepped n (atomic_buy key ∷ ps) (r.0 ∷ ps, r.1))
        (sym e) (turn-Stepped t.fault n w ps e a)
  head-Stepped t p ps n w e (answered b) a = (n, e, stays n _, (answered b, a))
  head-Stepped t p ps n w e (failed x) a = (n, e, stays n _, (failed x, a))

  -- One more buyer, who does nothing.
  framed :
      (p : Action Bool) (n n' : ℕ) (ps ps' : List (Action Bool))
      → Moves n n' ps ps'
      → Moves n n' (p ∷ ps) (p ∷ ps')
  framed (ret true) n n' ps ps' h = record {
    sums = omega (arith, h.sums);
    fair = h.fair;
    down = h.down;
    same = ap suc h.same;
  }
  framed (ret false) n n' ps ps' h = record {
    sums = h.sums;
    fair = grind (arith, h.fair);
    down = h.down;
    same = ap suc h.same;
  }
  framed (throw e) n n' ps ps' h = record {
    sums = h.sums;
    fair = h.fair;
    down = h.down;
    same = ap suc h.same;
  }
  framed (act g k) n n' ps ps' h = record {
    sums = h.sums;
    fair = h.fair;
    down = h.down;
    same = ap suc h.same;
  }

  step_at-Stepped :
      (i : ℕ) (t : Tick) (ps : List (Action Bool)) (n : ℕ) (w : World)
      → w.stock key ≡ some n
      → All Stage ps
      → Stepped n ps (step_at i t ps w)
  unfolding step_at
  step_at-Stepped i t [] n w e a = (n, e, stays n [], tt)
  step_at-Stepped zero t (p ∷ ps) n w e a = head-Stepped t p ps n w e a.0 a.1
  step_at-Stepped (suc i) t (p ∷ ps) n w e a =
      let r = step_at-Stepped i t ps n w e a.1 in (r.0, r.1, framed p n r.0 ps _ r.2, (a.0, r.3))

  Moves-trans :
      (a b c : ℕ) (ps qs rs : List (Action Bool))
      → Moves a b ps qs
      → Moves b c qs rs
      → Moves a c ps rs
  Moves-trans a b c ps qs rs x y = record {
    sums = omega (arith, x.sums, y.sums);
    fair = grind (arith, x.fair, y.fair, y.down);
    down = omega (arith, x.down, y.down);
    same = y.same ∙ x.same;
  }

  run-Stepped :
      (s : List (ℕ × Tick)) (ps : List (Action Bool)) (n : ℕ) (w : World)
      → w.stock key ≡ some n
      → All Stage ps
      → Stepped n ps (run s ps w)
  unfolding run
  run-Stepped [] ps n w e a = (n, e, stays n ps, a)
  run-Stepped ((i, t) ∷ s) ps n w e a =
      let x = step_at-Stepped i t ps n w e a in
      let y = run-Stepped s _ x.0 _ x.1 x.3 in (y.0, y.1, Moves-trans n x.0 y.0 ps _ _ x.2 y.2, y.3)

  swarm-Stage : (n : ℕ) → All Stage (swarm n (atomic_buy key))
  swarm-Stage zero = tt
  swarm-Stage (suc n) = (waiting, swarm-Stage n)

  swarm-quiet :
      (n : ℕ)
      → let ps = swarm n (atomic_buy key) in (sold ps ≡ 0) × (refused ps ≡ 0) × (length ps ≡ n)
  swarm-quiet zero = (refl, refl, refl)
  swarm-quiet (suc n) = let q = swarm-quiet n in (q.0, q.1, ap suc q.2)

  module _ (buyers stock : ℕ) (s : List (ℕ × Tick)) (w : World)
      (primed : w.stock key ≡ some stock) where
    abbrev after : List (Action Bool) × World
    after = run s (swarm buyers (atomic_buy key)) w

    -- At any moment of any interleaving of the buyers, whichever commands fail, no more was sold than
    -- there was on the key.
    pub swarm_never_oversells : oversold stock after.0 ≡ 0
    swarm_never_oversells =
        let r = run-Stepped s (swarm buyers (atomic_buy key)) stock w primed (swarm-Stage buyers) in
        omega (arith, r.2.sums, swarm-quiet buyers)

    -- When the key holds a number, then however the buyers interleave, once all of them have been
    -- answered and none failed, exactly as many bought as there were units, or all of them if they
    -- were fewer, and the key holds what is left.
    pub swarm_exact :
        AllAnswered after.0
        → (sold after.0 ≡ min stock buyers) × (after.1.stock key ≡ some (stock - buyers))
    swarm_exact done =
        let r = run-Stepped s (swarm buyers (atomic_buy key)) stock w primed (swarm-Stage buyers) in
        let q = swarm-quiet buyers in
        let all = answered-length after.0 done in
        (
          grind (arith, r.2.sums, r.2.fair, r.2.down, r.2.same, q, all),
          r.1 ∙ ap some (grind (arith, r.2.sums, r.2.fair, r.2.down, r.2.same, q, all)),
        )
