-- ===== src/Runtime/Guarantee.antt =====
-- What a function does to the store, one command at a time: each command is a step of a relation,
-- whatever the others did before it. The rules below put functions together, and a pool of such
-- functions only makes steps of the relation.
use flashkart.Base.{ℕ, zero, suc, Bool, true, false, List, [], ◌∷◌, if◌then◌else◌, map}
use flashkart.Runtime.{Proc, ret, throw, act, Tick, Err, outcome, fallible, lift, ◌>>=◌, try_catch}
use flashkart.Runtime.Pool.{advance, step_at, run}

-- The states that come after any number of steps.
pub data Reach {W : Type 0} (R : W → W → Type 0) (w : W) : W → Type 0 where
  here : Reach R w w
  next : {v u : W} → Reach R w v → R v u → Reach R w u

-- From the state `w` on, and whatever steps others make in between, each command makes a step, and
-- a result `a` comes with `Q a` of the state that it comes in.
pub data Guar {W : Type 0} (R : W → W → Type 0) {A : Type 0} (Q : A → W → Type 0)
    : W → Proc W A → Type 0 where
  gives : {w : W} {a : A} → Q a w → Guar R Q w (ret a)
  fails : {w : W} {e : Err} → Guar R Q w (throw e)
  makes :
      {w : W} {g : Tick → W → W} {k : Tick → W → Proc W A}
      → ((t : Tick) (v : W) → Reach R w v → R v (g t v))
      → ((t : Tick) (v : W) → Reach R w v → Guar R Q (g t v) (k t v))
      → Guar R Q w (act g k)

abbrev pub Anything : {W A : Type 0} → A → W → Type 0
Anything a w = Unit {0}

-- From any state on, with nothing said of the results.
abbrev pub Always : {W : Type 0} (R : W → W → Type 0) {A : Type 0} → Proc W A → Type 0
Always {W} R p = (w : W) → Guar R Anything w p

pub Reach-trans :
    {W : Type 0} {R : W → W → Type 0} {u v w : W} → Reach R u v → Reach R v w → Reach R u w
Reach-trans a here = a
Reach-trans a (next b r) = next (Reach-trans a b) r

abbrev pub AllGuar : {W : Type 0} (R : W → W → Type 0) {A : Type 0} → W → List (Proc W A) → Type 0
AllGuar R w [] = Unit {0}
AllGuar R w (p ∷ ps) = Guar R Anything w p × AllGuar R w ps

module _ {W : Type 0} {R : W → W → Type 0} where
  pub returns : {A : Type 0} {a : A} → Always R (ret a)
  returns w = gives tt

  pub throws : {A : Type 0} {e : Err} → Always R {A = A} (throw e)
  throws w = fails

  pub acts :
      {A : Type 0} {g : Tick → W → W} {k : Tick → W → Proc W A}
      → ((t : Tick) (w : W) → R w (g t w))
      → ((t : Tick) (w : W) → Always R (k t w))
      → Always R (act g k)
  acts s k w = makes (λ t v r. s t v) (λ t v r. k t v _)

  -- What follows may rely on what is said of the result, and on the steps made so far.
  pub Guar-then :
      {A B : Type 0} {Q : A → W → Type 0} {Q' : B → W → Type 0} {p : Proc W A} {f : A → Proc W B}
      {w : W}
      → Guar R Q w p
      → ((a : A) (v : W) → Reach R w v → Q a v → Guar R Q' v (f a))
      → Guar R Q' w (p >>= f)
  Guar-then (gives q) h = h _ _ here q
  Guar-then fails h = fails
  Guar-then (makes s k) h =
      makes s λ t v r. Guar-then (k t v r) (λ a u r' q. h a u (Reach-trans (next r (s t v r)) r') q)

  pub Guar-bind :
      {A B : Type 0} {p : Proc W A} {f : A → Proc W B}
      → Always R p
      → ((a : A) → Always R (f a))
      → Always R (p >>= f)
  Guar-bind p f w = Guar-then (p w) (λ a v r q. f a v)

  Guar-catch :
      {A : Type 0} {p : Proc W A} {h : Err → Proc W A} {w : W}
      → Guar R Anything w p
      → ((e : Err) → Always R (h e))
      → Guar R Anything w (try_catch p h)
  Guar-catch (gives q) h = gives tt
  Guar-catch fails h = h _ _
  Guar-catch (makes s k) h = makes s (λ t v r. Guar-catch (k t v r) h)

  pub Guar-try_catch :
      {A : Type 0} {p : Proc W A} {h : Err → Proc W A}
      → Always R p
      → ((e : Err) → Always R (h e))
      → Always R (try_catch p h)
  Guar-try_catch p h w = Guar-catch (p w) h

  pub Guar-if :
      {A : Type 0} {p q : Proc W A} (b : Bool)
      → Always R p
      → Always R q
      → Always R (if b then p else q)
  Guar-if true p q = p
  Guar-if false p q = q

  -- A command that fails makes no step.
  -- A command that fails makes no step.
  pub Guar-command :
      {A : Type 0} {Q : A → W → Type 0} {w : W} (e : Err) (f : Tick → W → A × W)
      → ((w : W) → R w w)
      → ((t : Tick) (v : W) → Reach R w v → R v (f t v).1 × Q (f t v).0 (f t v).1)
      → Guar R Q w (fallible e f)
  Guar-command {A} {Q} {w} e f keep step =
      makes (λ t v r. moved t v r t.fault) (λ t v r. ended t v r t.fault)
    where
      moved : (t : Tick) (v : W) → Reach R w v → (fault : Bool) → R v (outcome e fault (f t v) v).1
      moved t v r true = keep v
      moved t v r false = (step t v r).0

      ended :
          (t : Tick) (v : W)
          → Reach R w v
          → (fault : Bool)
          → Guar R Q (outcome e fault (f t v) v).1 (lift (outcome e fault (f t v) v).0)
      ended t v r true = fails
      ended t v r false = gives (step t v r).1

  pub Guar-fallible :
      {A : Type 0} (e : Err) (f : Tick → W → A × W)
      → ((w : W) → R w w)
      → ((t : Tick) (w : W) → R w (f t w).1)
      → Always R (fallible e f)
  Guar-fallible e f keep step w = Guar-command e f keep (λ t v r. (step t v, tt))

  pub Guar-local :
      {A : Type 0} {k : Tick → W → Proc W A}
      → ((w : W) → R w w)
      → ((t : Tick) (w : W) → Always R (k t w))
      → Always R (act (λ t w. w) k)
  Guar-local keep k = acts (λ t w. keep w) k

  -- It stays so while others make steps.
  Guar-later :
      {A : Type 0} {p : Proc W A} {w v : W}
      → Guar R Anything w p
      → Reach R w v
      → Guar R Anything v p
  Guar-later (gives q) r = gives tt
  Guar-later fails r = fails
  Guar-later (makes s k) r =
      makes (λ t u r'. s t u (Reach-trans r r')) (λ t u r'. k t u (Reach-trans r r'))

  AllGuar-later :
      {A : Type 0} {w v : W} (ps : List (Proc W A)) → AllGuar R w ps → Reach R w v → AllGuar R v ps
  AllGuar-later [] g r = tt
  AllGuar-later (p ∷ ps) g r = (Guar-later g.0 r, AllGuar-later ps g.1 r)

  pub AllGuar-map :
      {A B : Type 0} (f : A → Proc W B)
      → ((a : A) → Always R (f a))
      → (xs : List A) (w : W) → AllGuar R w (map f xs)
  AllGuar-map f h [] w = tt
  AllGuar-map f h (a ∷ xs) w = (h a w, AllGuar-map f h xs w)

  advance-Guar :
      {A : Type 0} (t : Tick) (p : Proc W A) (w : W)
      → Guar R Anything w p
      → let r = advance t p w in Reach R w r.1 × Guar R Anything r.1 r.0
  unfolding advance
  advance-Guar t p w (gives q) = (here, gives tt)
  advance-Guar t p w fails = (here, fails)
  advance-Guar t p w (makes s k) = (next here (s t w here), k t w here)

  step_at-Guar :
      {A : Type 0} (i : ℕ) (t : Tick) (ps : List (Proc W A)) (w : W)
      → AllGuar R w ps
      → let r = step_at i t ps w in Reach R w r.1 × AllGuar R r.1 r.0
  unfolding step_at
  step_at-Guar i t [] w g = (here, tt)
  step_at-Guar zero t (p ∷ ps) w g =
      let r = advance-Guar t p w g.0 in (r.0, (r.1, AllGuar-later ps g.1 r.0))
  step_at-Guar (suc i) t (p ∷ ps) w g =
      let r = step_at-Guar i t ps w g.1 in (r.0, (Guar-later g.0 r.0, r.1))

  -- Whatever the schedule does, the store goes by steps of the relation.
  pub run-Reach :
      {A : Type 0} (s : List (ℕ × Tick)) (ps : List (Proc W A)) (w : W)
      → AllGuar R w ps
      → Reach R w (run s ps w).1
  unfolding run
  run-Reach [] ps w g = here
  run-Reach ((i, t) ∷ s) ps w g =
      let r = step_at-Guar i t ps w g in Reach-trans r.0 (run-Reach s _ _ r.1)
