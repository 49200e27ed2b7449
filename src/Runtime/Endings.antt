-- ===== src/Runtime/Endings.antt =====
-- One function run alone to its very end, inside a larger one.
use flashkart.Base.{◌≡◌, refl, List, [], ◌∷◌, ◌++◌}
use flashkart.Runtime.{Proc, ret, throw, act, Tick, Result, ok, err, Err, lift, ◌>>=◌, try_catch}
use flashkart.Runtime.Pool.{advance, run_alone}

module _ {W A : Type 0} where
  -- Alone, with a command at each of the times, `p` comes to this end and leaves this store.
  abbrev pub Ends : Proc W A → List Tick → W → Result A → W → Type 0
  Ends (ret a) [] w (ok b) w' = (a ≡ b) × (w ≡ w')
  Ends (throw e) [] w (err f) w' = (e ≡ f) × (w ≡ w')
  Ends (act g k) (t ∷ ts) w r w' = Ends (k t w) ts (g t w) r w'
  Ends _ _ _ _ _ = ⊥

  -- What follows goes on from there.
  pub run_alone-bind :
      {B : Type 0} (p : Proc W A) (f : A → Proc W B) (h : Err → Proc W B) (ts us : List Tick)
      (w w' : W) (r : Result A)
      → Ends p ts w r w'
      → run_alone (ts ++ us) (try_catch (p >>= f) h) w
        ≡ run_alone us (try_catch (lift r >>= f) h) w'
  unfolding run_alone advance
  run_alone-bind (ret a) f h [] us w w' (ok b) e = rw (e.0, e.1) refl
  run_alone-bind (throw x) f h [] us w w' (err y) e = rw (e.0, e.1) refl
  run_alone-bind (act g k) f h (t ∷ ts) us w w' r e =
      run_alone-bind (k t w) f h ts us (g t w) w' r e
  run_alone-bind (ret a) f h [] us w w' (err b) e = absurd e
  run_alone-bind (throw x) f h [] us w w' (ok y) e = absurd e
  run_alone-bind (act g k) f h [] us w w' r e = absurd e
  run_alone-bind (ret a) f h (t ∷ ts) us w w' r e = absurd e
  run_alone-bind (throw x) f h (t ∷ ts) us w w' r e = absurd e
