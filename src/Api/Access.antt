-- ===== src/Api/Access.antt =====
-- Callers without a token that verifies are turned away from every route that wants one.
use flashkart.Base.{
  ℕ, ◌≡◌, refl, Bool, true, false, String, Option, none, some, List, [], ◌∷◌, map, Bool-cases, inl,
  inr, true_not_false, sym, subst, All,
}
use flashkart.Shared.Events.{Role}
use flashkart.Runtime.{Proc, ret, throw, act, Tick, Result, ok, err, Err, ◌>>=◌}
use flashkart.Runtime.Pool.{run}
use flashkart.Runtime.Ledger.{Account, Safe, Safe-try_catch, Before, After, After-keep, Covered}
use flashkart.Runtime.Settling.{run-Safe}
use flashkart.Store.{World}
use flashkart.Auth.{require_auth, admitted}
use flashkart.RateLimit.Middleware.{Verdict, next, next_with, too_many}
use flashkart.Routes
use flashkart.Routes.Gate.{Site, post_buy, post_reserve}
use flashkart.Api.{
  Route, lives, is_ready, asks_me, buys, reserves, views, confirms, releases, lists_orders,
  shows_order, Request, Response, limited, refused, Host, attempt, served_reply, pass,
  authenticated, dispatch, routed, serve,
}

-- The routes behind `requireAuth`.
abbrev pub is_protected : Route → Bool
is_protected asks_me = true
is_protected (buys id) = true
is_protected (reserves id) = true
is_protected (views id) = true
is_protected (confirms id) = true
is_protected (releases id) = true
is_protected lists_orders = true
is_protected (shows_order id) = true
is_protected _ = false

-- An answer 401, or 429 of the limiter of all routes.
abbrev pub TurnedAway : {Token : Type 0} → Response Token → Type 0
TurnedAway (limited secs ms) = Unit {0}
TurnedAway (refused e) = e.status ≡ 401
TurnedAway _ = ⊥

-- What came of the requests: they are turned away, or not answered yet.
abbrev pub AllTurnedAway : {Token : Type 0} → List (Proc Site (Response Token)) → Type 0
AllTurnedAway [] = Unit {0}
AllTurnedAway (ret x ∷ ps) = TurnedAway x × AllTurnedAway ps
AllTurnedAway (throw e ∷ ps) = ⊥
AllTurnedAway (act g k ∷ ps) = AllTurnedAway ps

module _ {Token : Type 0} (h : Host Token) where
  -- The request is for such a route, and its token never verifies.
  abbrev pub IsStranger : Request Token → Type 0
  IsStranger r =
      (is_protected r.route ≡ true)
      × ((now : ℕ) → (e : Err) × (require_auth h.mongoose h.jwt h.env r.token now ≡ err e))

  -- An error of `requireAuth` is a 401.
  abbrev Is401 : Result (String × Role) → Type 0
  Is401 (ok user) = Unit {0}
  Is401 (err e) = (Routes.error_reply e).status ≡ 401

  admitted-Is401 : (o : Option (String × Role)) → Is401 (admitted o)
  admitted-Is401 none = refl
  admitted-Is401 (some user) = tt

  require_auth-Is401 :
      (token : Option Token) (now : ℕ) → Is401 (require_auth h.mongoose h.jwt h.env token now)
  unfolding require_auth
  require_auth-Is401 none now = refl
  require_auth-Is401 (some token) now = elim (Bool-cases (h.jwt.is_blank token)) [
    | inl e ↦ rw e refl
    | inr e ↦ rw e (admitted-Is401 _)
  ]

  module _ (w : World) where
    -- The world stays as it is.
    abbrev still : Account Site
    still = record { balance = λ s. 0; is_open = λ s. true; Inv = λ s. s.world ≡ w }

    kept : (s : Site) → Before still 0 s → After still 0 s 0 s
    kept s b = After-keep still 0 s b

    abbrev Turned : Result (Response Token) → ℕ → Type 0
    Turned (ok x) c = TurnedAway x
    Turned (err e) c = (Routes.error_reply e).status ≡ 401

    abbrev Answered : Result (Response Token) → ℕ → Type 0
    Answered (ok x) c = TurnedAway x
    Answered (err e) c = ⊥

    pass-Turned :
        (v : Verdict) (rest : Proc Site (Response Token))
        → Safe still Turned rest 0
        → Safe still Turned (pass v rest) 0
    pass-Turned next rest s = s
    pass-Turned (next_with limit remaining) rest s = s
    pass-Turned (too_many limit remaining secs ms) rest s = tt

    module _ (r : Request Token)
        (foreign : (now : ℕ)
          → (e : Err) × (require_auth h.mongoose h.jwt h.env r.token now ≡ err e)) where
      status : (now : ℕ) → (Routes.error_reply (foreign now).0).status ≡ 401
      status now = subst Is401 (foreign now).1 (require_auth-Is401 r.token now)

      authenticated-Turned :
          (handler : String → Proc Site (Response Token))
          → Safe still Turned (authenticated h r handler) 0
      authenticated-Turned handler = λ t s b. (0, kept s b, rw (foreign t.now).1 (status t.now))

      post_buy-Turned :
          (id : String)
          → Safe still Turned
              (post_buy h.mongoose h.jwt h.env h.bypass_token (attempt r id) >>= λ x.
                ret (served_reply x))
              0
      unfolding post_buy
      post_buy-Turned id = λ t s b. (0, kept s b, rw (foreign t.now).1 (status t.now))

      post_reserve-Turned :
          (id : String)
          → Safe still Turned
              (post_reserve h.mongoose h.jwt h.env h.bypass_token (attempt r id) >>= λ x.
                ret (served_reply x))
              0
      unfolding post_reserve
      post_reserve-Turned id = λ t s b. (0, kept s b, rw (foreign t.now).1 (status t.now))

      dispatch-Turned :
          (route : Route) → is_protected route ≡ true → Safe still Turned (dispatch h r route) 0
      unfolding dispatch
      dispatch-Turned asks_me q = authenticated-Turned _
      dispatch-Turned (buys id) q = post_buy-Turned id
      dispatch-Turned (reserves id) q = post_reserve-Turned id
      dispatch-Turned (views id) q = authenticated-Turned _
      dispatch-Turned (confirms id) q = authenticated-Turned _
      dispatch-Turned (releases id) q = authenticated-Turned _
      dispatch-Turned lists_orders q = authenticated-Turned _
      dispatch-Turned (shows_order id) q = authenticated-Turned _
      dispatch-Turned _ q = absurd (true_not_false (sym q))

      routed-Turned :
          (route : Route) → is_protected route ≡ true → Safe still Turned (routed h r route) 0
      unfolding routed
      routed-Turned lives q = absurd (true_not_false (sym q))
      routed-Turned is_ready q = absurd (true_not_false (sym q))
      routed-Turned route q =
          λ t s b. (0, kept s b, pass-Turned _ (dispatch h r route) (dispatch-Turned route q))

      serve-Answered : is_protected r.route ≡ true → Safe still Answered (serve h r) 0
      unfolding serve
      serve-Answered q =
          Safe-try_catch still Turned Answered _ _ 0 (routed-Turned r.route q) (λ x c k. k)
            (λ e c k. k)

    strangers-Answered :
        (rs : List (Request Token))
        → All IsStranger rs
        → All (λ r. Safe still Answered (serve h r) 0) rs
    strangers-Answered [] a = tt
    strangers-Answered (r ∷ rs) a = (serve-Answered r a.0.1 a.0.0, strangers-Answered rs a.1)

    Covered-AllTurnedAway :
        (rs : List (Request Token)) (ps : List (Proc Site (Response Token))) (cs : List ℕ)
        → Covered still (λ r. Answered) rs ps cs
        → AllTurnedAway ps
    Covered-AllTurnedAway [] [] [] v = tt
    Covered-AllTurnedAway (r ∷ rs) (ret x ∷ ps) (c ∷ cs) v =
        (v.0, Covered-AllTurnedAway rs ps cs v.1)
    Covered-AllTurnedAway (r ∷ rs) (throw e ∷ ps) (c ∷ cs) v = absurd v.0
    Covered-AllTurnedAway (r ∷ rs) (act g k ∷ ps) (c ∷ cs) v = Covered-AllTurnedAway rs ps cs v.1
    Covered-AllTurnedAway [] [] (c ∷ cs) v = absurd v
    Covered-AllTurnedAway [] (q ∷ ps) cs v = absurd v
    Covered-AllTurnedAway (r ∷ rs) [] cs v = absurd v
    Covered-AllTurnedAway (r ∷ rs) (q ∷ ps) [] v = absurd v

  -- Requests for the routes behind `requireAuth`, with tokens that never verify, leave the world as
  -- it is, however they interleave and whichever commands fail, and each that is answered gets a 401,
  -- or the 429 of the limiter of all routes.
  pub strangers_turned_away :
      (rs : List (Request Token)) (s : List (ℕ × Tick)) (site : Site)
      → All IsStranger rs
      → ((run s (map (serve h) rs) site).1.world ≡ site.world)
        × AllTurnedAway (run s (map (serve h) rs) site).0
  strangers_turned_away rs s site strangers =
      let r =
        run-Safe (still site.world) (λ r. Answered site.world) (serve h) rs s site
          (strangers-Answered site.world rs strangers) refl in
      (r.1.0, Covered-AllTurnedAway site.world rs _ r.0 r.2)
