-- ===== src/Runtime/Shares.antt =====
-- Accounting with a fixed total, in environments of which something is known. The units in the store
-- and those that the pending functions own are never more than the total, and a function may rely
-- on that for its own units; and what a function found in the store stays, as far as every command
-- keeps it.
use flashkart.Base.{
  ℕ, zero, suc, ◌+◌, ◌≤◌, ◌≡◌, refl, Bool, true, false, List, [], ◌∷◌, map, All, arith, sum_by,
  zeros, sum_by-zeros,
}
use flashkart.Runtime.{
  Proc, ret, throw, act, Tick, Result, ok, err, Err, lift, outcome, fallible, ◌>>=◌, try_catch,
}
use flashkart.Runtime.Pool.{advance, step_at, run}
use flashkart.Runtime.Within.{Within, done, stops, does}
pub mod Pools

pub record Reserve (W : Type 0) : Type 1 where
  pub balance : W → ℕ
  pub total : ℕ
  pub Inv : W → Type 0
  pub Env : Tick → Type 0
  pub Keeps : W → W → Type 0
  pub keeps-refl : (w : W) → Keeps w w
  pub keeps-trans : (u v w : W) → Keeps u v → Keeps v w → Keeps u w

module _ {W : Type 0} (L : Reserve W) where
  open L use {balance, total, Inv, Env, Keeps}

  abbrev pub Before : ℕ → W → Type 0
  Before c w = Inv w × (balance w + c ≤ total)

  abbrev pub After : ℕ → W → ℕ → W → Type 0
  After c w c' w' = Inv w' × (balance w' + c' ≡ balance w + c) × Keeps w w'

  -- From the store `w` on.
  abbrev pub Safe : {A : Type 0} → (Result A → ℕ → W → Type 0) → Proc W A → ℕ → W → Type 0
  Safe Q (ret a) c w = Q (ok a) c w
  Safe Q (throw e) c w = Q (err e) c w
  Safe Q (act g k) c w =
      (t : Tick) (v : W)
      → Keeps w v
      → Env t
      → Before c v
      → (c' : ℕ) × After c v c' (g t v) × Safe Q (k t v) c' (g t v)

  pub later : (w v u : W) (c c' : ℕ) → Keeps w v → After c v c' u → Keeps w u
  later w v u c c' k a = L.keeps-trans w v u k a.2

  pub Safe-bind :
      {A B : Type 0} (Q : Result A → ℕ → W → Type 0) (R : Result B → ℕ → W → Type 0) (p : Proc W A)
      (f : A → Proc W B) (c : ℕ) (w : W)
      → Safe Q p c w
      → ((a : A) (c' : ℕ) (v : W) → Keeps w v → Q (ok a) c' v → Safe R (f a) c' v)
      → ((e : Err) (c' : ℕ) (v : W) → Keeps w v → Q (err e) c' v → R (err e) c' v)
      → Safe R (p >>= f) c w
  Safe-bind Q R (ret a) f c w s good bad = good a c w (L.keeps-refl w) s
  Safe-bind Q R (throw e) f c w s good bad = bad e c w (L.keeps-refl w) s
  Safe-bind Q R (act g k) f c w s good bad = λ t v m n b.
      let r = s t v m n b in
      let on = later w v (g t v) c r.0 m r.1 in
      (
        r.0,
        r.1,
        Safe-bind Q R (k t v) f r.0 (g t v) r.2
            (λ a c' u l q. good a c' u (L.keeps-trans w (g t v) u on l) q)
            (λ e c' u l q. bad e c' u (L.keeps-trans w (g t v) u on l) q),
      )

  pub Safe-try_catch :
      {A : Type 0} (Q R : Result A → ℕ → W → Type 0) (p : Proc W A) (h : Err → Proc W A) (c : ℕ)
      (w : W)
      → Safe Q p c w
      → ((a : A) (c' : ℕ) (v : W) → Q (ok a) c' v → R (ok a) c' v)
      → ((e : Err) (c' : ℕ) (v : W) → Q (err e) c' v → Safe R (h e) c' v)
      → Safe R (try_catch p h) c w
  Safe-try_catch Q R (ret a) h c w s good bad = good a c w s
  Safe-try_catch Q R (throw e) h c w s good bad = bad e c w s
  Safe-try_catch Q R (act g k) h c w s good bad = λ t v m n b.
      let r = s t v m n b in (r.0, r.1, Safe-try_catch Q R (k t v) h r.0 (g t v) r.2 good bad)

  pub After-keep : (c : ℕ) (w : W) → Before c w → After c w c w
  After-keep c w b = (b.0, refl, L.keeps-refl w)

  -- A command that fails changes nothing.
  pub Safe-fallible :
      {A : Type 0} (Q : Result A → ℕ → W → Type 0) (e : Err) (f : Tick → W → A × W) (c : ℕ) (w : W)
      → ((v : W) → Keeps w v → Q (err e) c v)
      → ((t : Tick) (v : W)
          → Keeps w v
          → Env t
          → Before c v
          → (c' : ℕ) × After c v c' (f t v).1 × Q (ok (f t v).0) c' (f t v).1)
      → Safe Q (fallible e f) c w
  Safe-fallible Q e f c w bad good = λ t v m n b. split t v m n b t.fault
    where
      split :
          (t : Tick) (v : W)
          → Keeps w v
          → Env t
          → Before c v
          → (fault : Bool)
          → (c' : ℕ) × After c v c' (outcome e fault (f t v) v).1
            × Safe Q (lift (outcome e fault (f t v) v).0) c' (outcome e fault (f t v) v).1
      split t v m n b true = (c, After-keep c v b, bad v m)
      split t v m n b false = good t v m n b

  -- What leaves the units, the invariant and what was found alone owns at its end what it owned.
  pub Within-Safe :
      {A : Type 0} {R : W → W → Type 0} {p : Proc W A} (c : ℕ)
      → ((w w' : W) → R w w' → Inv w → Inv w' × (balance w' ≡ balance w) × Keeps w w')
      → Within R p
      → (w : W) → Safe (λ r c' v. c' ≡ c) p c w
  Within-Safe c keep done w = refl
  Within-Safe c keep stops w = refl
  Within-Safe c keep (does s h) w = λ t v m n b.
      let k = keep v _ (s t v) b.0 in
      (c, (k.0, omega (arith, k.1), k.2), Within-Safe c keep (h t v) _)
