-- ===== src/Web/Start.antt =====
-- The effects that run when the page opens: the sign-in from the cookie, and the first loading.
use flashkart.Base.{ℕ, suc, ◌≤◌, ◌≡◌, refl, true, false, String, List, [], ◌∷◌, length, arith}
use flashkart.Runtime.{ret, throw, act, Tick, Result, Err, lift, ◌>>=◌, try_catch}
use flashkart.Runtime.Pool.{run_alone, advance}
use flashkart.Runtime.Finishing.{
  Frugal, returns, acts, Frugal-bind, Frugal-try_catch, Frugal-lift, Frugal-if, run_alone-ret,
}
use flashkart.Web.{Client, sign_in}
use flashkart.Web.Session.{
  refresh, products, Call, Response, Page, Script, edit, update, request, is_ok, or_empty, finally,
  signed_in, ready, silent_refresh, loaded, not_loaded, done_loading, load_products,
}
use flashkart.Web.Requests.{requests, request-Frugal, update-Frugal}

module _ {Net : Type 0} where
  abbrev thrown : Err → Script Net (Unit {0})
  thrown e = throw e

  run_alone-throw : (ts : List Tick) (e : Err) (w : Page Net) → (run_alone ts (thrown e) w).1 ≡ w
  unfolding run_alone advance
  run_alone-throw [] e w = refl
  run_alone-throw (t ∷ ts) e w = run_alone-throw ts e w

  module _ (fetch : Call → Tick → Net → Result Response × Net) where
    -- The last setter is called on every way out.
    run_alone-finally :
        (Q : Page Net → Type 0) (c : Client → Client)
        → ((w : Page Net) → Q (edit c w))
        → {n d : ℕ} (p : Script Net (Unit {0})) (ts : List Tick) (w : Page Net)
        → Frugal requests n d p
        → suc n ≤ length ts
        → Q (run_alone ts (finally fetch p c) w).1
    unfolding run_alone advance
    run_alone-finally Q c q p [] w fr le = absurd (omega arith)
    run_alone-finally Q c q (ret tt) (t ∷ ts) w fr le = rw (run_alone-ret ts tt (edit c w)) (q w)
    run_alone-finally Q c q (throw e) (t ∷ ts) w fr le = rw (run_alone-throw ts e (edit c w)) (q w)
    run_alone-finally Q c q (act g k) (t ∷ ts) w (acts cost a b s fr) le =
        run_alone-finally Q c q (k t w) ts (g t w) (fr t w) (omega arith)

    signing_in-Frugal : Frugal requests 2 1 (request fetch refresh >>= signed_in fetch)
    signing_in-Frugal =
        Frugal-bind {n' = 1} {d' = 0} (omega arith) (omega arith) (request-Frugal fetch refresh)
          λ res.
            Frugal-if (is_ok res)
              (Frugal-bind {n = 0} {n' = 1} {d = 0} {d' = 0} (omega arith) (omega arith)
                (Frugal-lift res.json)
                (λ body. update-Frugal (sign_in body.user body.access_token)))
              returns

    module _ (describe : Err → String) where
      loading-Frugal : Frugal requests 3 1 (
          try_catch
            (do
              res ← request fetch products
              body ← lift res.json
              update (loaded fetch (or_empty body.products)))
            (λ e. update (not_loaded fetch (describe e))))
      loading-Frugal =
          Frugal-try_catch {n = 2} {n' = 1} {d = 1} {d' = 0} (omega arith) (omega arith)
            (Frugal-bind {n' = 1} {d' = 0} (omega arith) (omega arith)
              (request-Frugal fetch products)
              λ res.
                Frugal-bind {n = 0} {n' = 1} {d = 0} {d' = 0} (omega arith) (omega arith)
                  (Frugal-lift res.json)
                  (λ body. update-Frugal (loaded fetch (or_empty body.products))))
            (λ e. update-Frugal (not_loaded fetch (describe e)))

      -- Each taken alone, with four commands at least: whatever the network answers or fails to answer, the
      -- page no longer waits for the sign-in of its start, nor for its products.
      pub start-finishes :
          (ts : List Tick) (w : Page Net)
          → 4 ≤ length ts
          → ((run_alone ts (silent_refresh fetch) w).1.client.auth_ready ≡ true)
            × ((run_alone ts (load_products fetch describe) w).1.client.loading ≡ false)
      unfolding silent_refresh load_products
      start-finishes ts w le = (
        run_alone-finally (λ w'. w'.client.auth_ready ≡ true) (ready fetch) (λ v. refl) _ ts w
            signing_in-Frugal (omega arith),
        run_alone-finally (λ w'. w'.client.loading ≡ false) (done_loading fetch) (λ v. refl) _ ts w
            loading-Frugal (omega arith),
      )
