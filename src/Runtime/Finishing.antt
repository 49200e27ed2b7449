-- ===== src/Runtime/Finishing.antt =====
-- How many commands a function needs, and what they cost by a measure of the store; and a function
-- that never rejects, run alone to its last command.
use flashkart.Base.{
  ℕ, suc, ◌+◌, ◌≤◌, ◌≡◌, refl, Bool, true, false, List, [], ◌∷◌, length, if◌then◌else◌, arith,
}
use flashkart.Runtime.{Proc, ret, throw, act, Tick, Result, ok, err, Err, lift, ◌>>=◌, try_catch}
use flashkart.Runtime.Pool.{advance, run_alone}

-- At most `n` commands, which raise the measure by at most `d`, whatever happens in between.
pub data Frugal {W : Type 0} (c : W → ℕ) {A : Type 0} : ℕ → ℕ → Proc W A → Type 0 where
  returns : {n d : ℕ} {a : A} → Frugal c n d (ret a)
  throws : {n d : ℕ} {e : Err} → Frugal c n d (throw e)
  acts :
      {n n' d d' : ℕ} {g : Tick → W → W} {k : Tick → W → Proc W A} (cost : ℕ)
      → suc n ≤ n'
      → cost + d ≤ d'
      → ((t : Tick) (w : W) → c (g t w) ≤ c w + cost)
      → ((t : Tick) (w : W) → Frugal c n d (k t w))
      → Frugal c n' d' (act g k)

-- It never rejects.
pub data Calm {W A : Type 0} : Proc W A → Type 0 where
  returns : {a : A} → Calm (ret a)
  acts :
      {g : Tick → W → W} {k : Tick → W → Proc W A}
      → ((t : Tick) (w : W) → Calm (k t w))
      → Calm (act g k)

pub Calm-try_catch :
    {W A : Type 0} (p : Proc W A) (h : Err → Proc W A)
    → ((e : Err) → Calm (h e))
    → Calm (try_catch p h)
Calm-try_catch (ret a) h calm = Calm.returns
Calm-try_catch (throw e) h calm = calm e
Calm-try_catch (act g k) h calm = Calm.acts (λ t w. Calm-try_catch (k t w) h calm)

pub run_alone-ret :
    {W A : Type 0} (ts : List Tick) (a : A) (w : W) → run_alone ts (ret a) w ≡ (ret a, w)
unfolding run_alone advance
run_alone-ret [] a w = refl
run_alone-ret (t ∷ ts) a w = run_alone-ret ts a w

module _ {W : Type 0} {c : W → ℕ} where
  pub Frugal-weaken :
      {A : Type 0} {p : Proc W A} {n n' d d' : ℕ}
      → n ≤ n'
      → d ≤ d'
      → Frugal c n d p
      → Frugal c n' d' p
  Frugal-weaken le le' Frugal.returns = Frugal.returns
  Frugal-weaken le le' throws = throws
  Frugal-weaken le le' (Frugal.acts cost a b s k) = Frugal.acts cost (omega arith) (omega arith) s k

  pub Frugal-bind :
      {A B : Type 0} {p : Proc W A} {f : A → Proc W B} {n n' m d d' e : ℕ}
      → n + n' ≤ m
      → d + d' ≤ e
      → Frugal c n d p
      → ((a : A) → Frugal c n' d' (f a))
      → Frugal c m e (p >>= f)
  Frugal-bind le le' Frugal.returns h = Frugal-weaken (omega arith) (omega arith) (h _)
  Frugal-bind le le' throws h = throws
  Frugal-bind {n' = n'} {d' = d'} le le' (Frugal.acts {n = n} {d = d} cost a b s k) h =
      Frugal.acts {n = n + n'} {d = d + d'} cost (omega arith) (omega arith) s
        (λ t w. Frugal-bind (omega arith) (omega arith) (k t w) h)

  pub Frugal-try_catch :
      {A : Type 0} {p : Proc W A} {h : Err → Proc W A} {n n' m d d' e : ℕ}
      → n + n' ≤ m
      → d + d' ≤ e
      → Frugal c n d p
      → ((x : Err) → Frugal c n' d' (h x))
      → Frugal c m e (try_catch p h)
  Frugal-try_catch le le' Frugal.returns h = Frugal.returns
  Frugal-try_catch le le' throws h = Frugal-weaken (omega arith) (omega arith) (h _)
  Frugal-try_catch {n' = n'} {d' = d'} le le' (Frugal.acts {n = n} {d = d} cost a b s k) h =
      Frugal.acts {n = n + n'} {d = d + d'} cost (omega arith) (omega arith) s
        (λ t w. Frugal-try_catch (omega arith) (omega arith) (k t w) h)

  pub Frugal-lift : {A : Type 0} {n d : ℕ} (r : Result A) → Frugal c n d (lift r)
  Frugal-lift (ok a) = Frugal.returns
  Frugal-lift (err e) = throws

  pub Frugal-if :
      {A : Type 0} {p q : Proc W A} {n d : ℕ} (b : Bool)
      → Frugal c n d p
      → Frugal c n d q
      → Frugal c n d (if b then p else q)
  Frugal-if true p q = p
  Frugal-if false p q = q

module _ {W : Type 0} (c : W → ℕ) where
  -- The function has returned, its last command was made, and the measure is within the bound.
  abbrev pub Finished : (W → Type 0) → ℕ → Proc W (Unit {0}) × W → Type 0
  Finished Q bound r = (r.0 ≡ ret tt) × Q r.1 × (c r.1 ≤ bound)

  -- A calm function and a last command, alone, with time enough.
  pub run_alone-finishes :
      {A : Type 0} (Q : W → Type 0) (g : Tick → W → W)
      → ((t : Tick) (w : W) → Q (g t w) × (c (g t w) ≤ c w))
      → {n d : ℕ} (p : Proc W A) (ts : List Tick) (w : W) → Calm p
      → Frugal c n d p
      → suc n ≤ length ts
      → Finished Q (c w + d) (run_alone ts (p >>= λ _. act g (λ t w. ret tt)) w)
  unfolding run_alone advance
  run_alone-finishes Q g last p [] w calm fr le = absurd (omega arith)
  run_alone-finishes Q g last (ret a) (t ∷ ts) w calm fr le =
      rw (run_alone-ret ts tt (g t w)) (refl, (last t w).0, omega (arith, (last t w).1))
  run_alone-finishes Q g last (throw e) (t ∷ ts) w calm fr le = elim calm [ ]
  run_alone-finishes Q g last (act f k) (t ∷ ts) w (Calm.acts calm)
        (Frugal.acts {d = d} cost a b s fr) le =
      let rest = run_alone-finishes Q g last (k t w) ts (f t w) (calm t w) (fr t w) (omega arith) in
      (rest.0, rest.1, omega (arith, rest.2, s t w))
