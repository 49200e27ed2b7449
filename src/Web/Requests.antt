-- ===== src/Web/Requests.antt =====
-- How many requests the page makes, and the end of `buy` (web/src/App.tsx).
use flashkart.Base.{
  ℕ, ◌+◌, ◌≤◌, ◌≡◌, refl, false, String, some, List, [], ◌∷◌, length, ◌==◌, arith, eq_refl, subst,
  sym,
}
use flashkart.Runtime.{Tick, Result, Err, try_catch}
use flashkart.Runtime.Pool.{run_alone, advance}
use flashkart.Runtime.Finishing.{
  Frugal, returns, acts, Calm, Calm-try_catch, Frugal-bind, Frugal-try_catch, Frugal-lift,
  Frugal-if, Finished, run_alone-finishes,
}
use flashkart.Web.{Client, Me, Product, sign_in, sign_out, set_busy}
use flashkart.Web.Session.{
  Endpoint, refresh, buy, Call, Response, Page, edit, update, request, send, renewed, api_fetch,
  is_ok,
}
use flashkart.Web.Buying.{attempt, report, buying, starting, buy_one}

module _ {Net : Type 0} where
  -- The requests that the page made so far.
  abbrev pub requests : Page Net → ℕ
  requests w = length w.calls

  pub update-Frugal : (f : Client → Client) → Frugal requests 1 0 (update f)
  update-Frugal f =
      acts {n = 0} {d = 0} 0 (omega arith) (omega arith) (λ t w. omega arith) (λ t w. returns)

  module _ (fetch : Call → Tick → Net → Result Response × Net) where
    pub request-Frugal : (e : Endpoint) → Frugal requests 1 1 (request fetch e)
    request-Frugal e =
        acts {n = 0} {d = 0} 1 (omega arith) (omega arith) (λ t w. omega arith)
          (λ t w. Frugal-lift {n = 0} {d = 0} _)

    send-Frugal : (e : Endpoint) → Frugal requests 1 1 (send fetch e)
    send-Frugal e =
        acts {n = 0} {d = 0} 1 (omega arith) (omega arith) (λ t w. omega arith)
          (λ t w. Frugal-lift {n = 0} {d = 0} _)

    renewed-Frugal : (e : Endpoint) (res r : Response) → Frugal requests 2 1 (renewed fetch e res r)
    renewed-Frugal e res r =
        Frugal-if (is_ok r)
          (Frugal-bind {n = 0} {n' = 2} {d = 0} {d' = 1} (omega arith) (omega arith)
            (Frugal-lift r.json)
            λ body.
              Frugal-bind (omega arith) (omega arith)
                (update-Frugal (sign_in body.user body.access_token)) (λ _. send-Frugal e))
          (Frugal-bind (omega arith) (omega arith) (update-Frugal sign_out)
            (λ _. returns {n = 1} {d = 1} {a = res}))

    -- `apiFetch` makes three requests at most, whatever the network answers and whatever the rest of
    -- the page does meanwhile.
    pub api_fetch-Frugal : (e : Endpoint) → Frugal requests 4 3 (api_fetch fetch e)
    api_fetch-Frugal e =
        Frugal-bind {n' = 3} {d' = 2} (omega arith) (omega arith) (send-Frugal e) λ res.
          Frugal-if (res.status == 401)
            (Frugal-bind (omega arith) (omega arith) (request-Frugal refresh)
              (renewed-Frugal e res))
            returns

    module _ (describe : Err → String) (uuid : ℕ → String) where
      attempt-Frugal :
          (id : String) (shown : List Product) (key : String)
          → Frugal requests 5 3 (attempt fetch describe uuid id shown key)
      attempt-Frugal id shown key =
          Frugal-bind {n' = 1} {d' = 0} (omega arith) (omega arith) (api_fetch-Frugal (buy id key))
            λ res.
              Frugal-bind {n = 0} {n' = 1} {d = 0} {d' = 0} (omega arith) (omega arith)
                (Frugal-lift res.json)
                (λ body.
                  acts {n = 0} {d = 0} 0 (omega arith) (omega arith) (λ t w. omega arith)
                    (λ t w. returns {n = 0} {d = 0}))

      abbrev IsIdle : String → Page Net → Type 0
      IsIdle id w = w.client.busy id ≡ false

      buying-finishes :
          (id : String) (user : Me) (shown : List Product) (key : String) (ts : List Tick)
          (w : Page Net)
          → 8 ≤ length ts
          → Finished requests
              (IsIdle id)
              (requests w + 3)
              (run_alone ts (buying fetch describe uuid id (some user) shown key) w)
      unfolding run_alone advance
      buying-finishes id user shown key [] w le = absurd (omega arith)
      buying-finishes id user shown key (t ∷ ts) w le =
          run_alone-finishes requests (IsIdle id) (λ t w. edit (set_busy id false) w)
            (λ t w. (rw (eq_refl id) refl, omega arith))
            (try_catch (attempt fetch describe uuid id shown key) (report fetch describe uuid id))
            ts (edit (starting id) w)
            (Calm-try_catch (attempt fetch describe uuid id shown key)
              (report fetch describe uuid id) (λ e. Calm.acts (λ t w. Calm.returns)))
            (Frugal-try_catch {n = 5} {n' = 1} {m = 6} {d = 3} {d' = 0} {e = 3} (omega arith)
              (omega arith) (attempt-Frugal id shown key) (λ e. update-Frugal _))
            (omega arith)

      -- A click of a user who is signed in ends: after nine commands at most `buy` has returned, whatever
      -- the network answers, the product's button is no longer busy, and at most three requests were
      -- made. Meanwhile nothing else happens on the page.
      pub buy_one-finishes :
          (id : String) (user : Me) (ts : List Tick) (w : Page Net)
          → w.client.me ≡ some user
          → 9 ≤ length ts
          → Finished requests
              (λ w'. w'.client.busy id ≡ false)
              (requests w + 3)
              (run_alone ts (buy_one fetch describe uuid id) w)
      unfolding buy_one run_alone advance
      buy_one-finishes id user [] w signed le = absurd (omega arith)
      buy_one-finishes id user (t ∷ ts) w signed le =
          let key = uuid t.fresh in
          subst
            (λ me.
              Finished requests (IsIdle id) (requests w + 3)
                (run_alone ts (buying fetch describe uuid id me w.client.products key) w))
            (sym signed) (buying-finishes id user w.client.products key ts w (omega arith))
