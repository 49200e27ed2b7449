-- ===== src/Runtime/Within.antt =====
-- Functions each of whose commands, in whatever state and environment it runs, changes the store as
-- a relation allows. They keep an account that the relation keeps.
use flashkart.Base.{ℕ, ◌≡◌, refl, Bool, true, false, if◌then◌else◌}
use flashkart.Runtime.{
  Proc, ret, throw, act, Tick, Result, ok, err, Err, lift, outcome, fallible, ◌>>=◌, try_catch,
}
use flashkart.Runtime.Guarantee.{Always, returns, throws, acts}
use flashkart.Runtime.Ledger.{Account, Safe, Before, After}

pub data Within {W : Type 0} (R : W → W → Type 0) {A : Type 0} : Proc W A → Type 0 where
  done : {a : A} → Within R (ret a)
  stops : {e : Err} → Within R (throw e)
  does :
      {g : Tick → W → W} {k : Tick → W → Proc W A}
      → ((t : Tick) (w : W) → R w (g t w))
      → ((t : Tick) (w : W) → Within R (k t w))
      → Within R (act g k)

module _ {W : Type 0} {R : W → W → Type 0} where
  pub Within-bind :
      {A B : Type 0} {p : Proc W A} {f : A → Proc W B}
      → Within R p
      → ((a : A) → Within R (f a))
      → Within R (p >>= f)
  Within-bind done k = k _
  Within-bind stops k = stops
  Within-bind (does s h) k = does s (λ t w. Within-bind (h t w) k)

  pub Within-try_catch :
      {A : Type 0} {p : Proc W A} {f : Err → Proc W A}
      → Within R p
      → ((e : Err) → Within R (f e))
      → Within R (try_catch p f)
  Within-try_catch done k = done
  Within-try_catch stops k = k _
  Within-try_catch (does s h) k = does s (λ t w. Within-try_catch (h t w) k)

  pub Within-if :
      {A : Type 0} {p q : Proc W A} (b : Bool)
      → Within R p
      → Within R q
      → Within R (if b then p else q)
  Within-if true h k = h
  Within-if false h k = k

  Within-lift : {A : Type 0} (r : Result A) → Within R (lift r)
  Within-lift (ok a) = done
  Within-lift (err e) = stops

  -- A command that fails changes nothing.
  pub Within-fallible :
      {A : Type 0} (e : Err) (f : Tick → W → A × W)
      → ((w : W) → R w w)
      → ((t : Tick) (w : W) → R w (f t w).1)
      → Within R (fallible e f)
  Within-fallible e f keep step = does (λ t w. moved t w t.fault) (λ t w. Within-lift _)
    where
      moved : (t : Tick) (w : W) (fault : Bool) → R w (outcome e fault (f t w) w).1
      moved t w true = keep w
      moved t w false = step t w

  pub Within-mono :
      {A : Type 0} {S : W → W → Type 0} {p : Proc W A}
      → ((w w' : W) → R w w' → S w w')
      → Within R p
      → Within S p
  Within-mono le done = done
  Within-mono le stops = stops
  Within-mono le (does s h) = does (λ t w. le w _ (s t w)) (λ t w. Within-mono le (h t w))

  pub Within-Always :
      {A : Type 0} {S : W → W → Type 0} {p : Proc W A}
      → ((w w' : W) → R w w' → S w w')
      → Within R p
      → Always S p
  Within-Always le done = returns
  Within-Always le stops = throws
  Within-Always le (does s h) = acts (λ t w. le w _ (s t w)) (λ t w. Within-Always le (h t w))

  pub Within-Safe :
      {A : Type 0} (L : Account W) (c : ℕ) {p : Proc W A}
      → ((w w' : W) → R w w' → Before L c w → After L c w c w')
      → Within R p
      → Safe L (λ r c'. c' ≡ c) p c
  Within-Safe L c keep done = refl
  Within-Safe L c keep stops = refl
  Within-Safe L c keep (does s h) = λ t w b. (c, keep w _ (s t w) b, Within-Safe L c keep (h t w))
