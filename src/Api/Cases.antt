-- ===== src/Api/Cases.antt =====
-- What holds of each handler of the api, and is kept by the limiters, `requireAuth` and the catching
-- of errors, holds of the whole api.
use flashkart.Base.{String}
use flashkart.Shared.Errors.{AppError}
use flashkart.Runtime.{Proc, ret, try_catch, Err, ◌>>=◌}
use flashkart.Store.{Action}
use flashkart.Machine.Aside.{Elsewhere}
use flashkart.Auth.Elsewhere.{
  post_register-Elsewhere, post_login-Elsewhere, refresh_session-Elsewhere, logout-Elsewhere,
  me-Elsewhere,
}
use flashkart.RateLimit.{Limit, auth_limit}
use flashkart.Routes.Reading.{
  list_products-Elsewhere, show_product-Elsewhere, view_hold-Elsewhere, mine-Elsewhere,
  view_order-Elsewhere,
}
use flashkart.Routes.Gate.{Site, post_buy, post_reserve}
use flashkart.Routes.Holds
use flashkart.Api.{
  Route, lives, is_ready, registers, logs_in, refreshes, logs_out, asks_me, lists, shows, buys,
  reserves, views, confirms, releases, lists_orders, shows_order, unmatched, Request, Response,
  Host, attempt, reply, served_reply, hold, refused, limited_by, authenticated, dispatch, routed,
  serve, global_limit, get_ready,
}

-- `Ok` is what a route relies on of the id of a product.
abbrev pub IdOk : (String → Type 0) → Route → Type 0
IdOk Ok (buys id) = Ok id
IdOk Ok (reserves id) = Ok id
IdOk Ok _ = Unit {0}

pub IdOk-every : (Ok : String → Type 0) → ((id : String) → Ok id) → (route : Route) → IdOk Ok route
IdOk-every Ok h (buys id) = h id
IdOk-every Ok h (reserves id) = h id
IdOk-every Ok h _ = tt

pub record Closed {Token : Type 0} (h : Host Token) (Ok : String → Type 0)
    (P : Proc Site (Response Token) → Type 0) : Type 1 where
  pub answers : (x : Response Token) → P (ret x)
  pub ready : P get_ready
  pub beside : (A : Type 0) (f : A → Response Token) (a : Action A) → Elsewhere a → P (reply f a)
  pub limits :
      (l : Limit) (scope : String) (r : Request Token) (rest : Proc Site (Response Token))
      → P rest
      → P (limited_by h l scope r rest)
  pub signed :
      (r : Request Token) (handler : String → Proc Site (Response Token))
      → ((user : String) → P (handler user))
      → P (authenticated h r handler)
  pub buying :
      (r : Request Token) (id : String)
      → Ok id
      → P (
          post_buy h.mongoose h.jwt h.env h.bypass_token (attempt r id) >>= λ x.
          ret (served_reply x))
  pub reserving :
      (r : Request Token) (id : String)
      → Ok id
      → P (
          post_reserve h.mongoose h.jwt h.env h.bypass_token (attempt r id) >>= λ x.
          ret (served_reply x))
  pub confirming : (id user : String) → P (reply hold (Holds.confirm h.mongoose id user))
  pub releasing : (id user : String) → P (reply hold (Holds.release h.mongoose id user))
  pub catches :
      (p : Proc Site (Response Token)) (f : Err → AppError)
      → P p
      → P (try_catch p (λ e. ret (refused (f e))))

module _ {Token : Type 0} (h : Host Token) (Ok : String → Type 0)
    (P : Proc Site (Response Token) → Type 0) (c : Closed h Ok P) where
  dispatch-Closed : (r : Request Token) (route : Route) → IdOk Ok route → P (dispatch h r route)
  unfolding dispatch
  dispatch-Closed r lives ok_id = c.answers _
  dispatch-Closed r is_ready ok_id = c.answers _
  dispatch-Closed r registers ok_id =
      c.limits auth_limit "auth" r _
        (c.beside _ _ _ (post_register-Elsewhere h.mongoose h.inputs r.fields))
  dispatch-Closed r logs_in ok_id =
      c.limits auth_limit "auth" r _
        (c.beside _ _ _ (post_login-Elsewhere h.mongoose h.jwt h.env h.inputs r.fields))
  dispatch-Closed r refreshes ok_id =
      c.beside _ _ _ (refresh_session-Elsewhere h.mongoose h.jwt h.env r.cookie)
  dispatch-Closed r logs_out ok_id =
      c.beside _ _ _ (logout-Elsewhere h.mongoose h.jwt h.env r.cookie)
  dispatch-Closed r asks_me ok_id =
      c.signed r _ (λ user. c.beside _ _ _ (me-Elsewhere h.mongoose h.jwt h.env user))
  dispatch-Closed r lists ok_id = c.beside _ _ _ (list_products-Elsewhere h.mongoose h.ids)
  dispatch-Closed r (shows id) ok_id = c.beside _ _ _ (show_product-Elsewhere h.mongoose id)
  dispatch-Closed r (buys id) ok_id = c.buying r id ok_id
  dispatch-Closed r (reserves id) ok_id = c.reserving r id ok_id
  dispatch-Closed r (views id) ok_id =
      c.signed r _ (λ user. c.beside _ _ _ (view_hold-Elsewhere h.mongoose id user))
  dispatch-Closed r (confirms id) ok_id = c.signed r _ (λ user. c.confirming id user)
  dispatch-Closed r (releases id) ok_id = c.signed r _ (λ user. c.releasing id user)
  dispatch-Closed r lists_orders ok_id =
      c.signed r _ (λ user. c.beside _ _ _ (mine-Elsewhere h.mongoose user))
  dispatch-Closed r (shows_order id) ok_id =
      c.signed r _ (λ user. c.beside _ _ _ (view_order-Elsewhere h.mongoose id user))
  dispatch-Closed r unmatched ok_id = c.answers _

  behind :
      (r : Request Token) (route : Route)
      → IdOk Ok route
      → P (limited_by h global_limit "global" r (dispatch h r route))
  behind r route ok_id = c.limits global_limit "global" r _ (dispatch-Closed r route ok_id)

  routed-Closed : (r : Request Token) (route : Route) → IdOk Ok route → P (routed h r route)
  unfolding routed
  routed-Closed r lives ok_id = c.answers _
  routed-Closed r is_ready ok_id = c.ready
  routed-Closed r registers ok_id = behind r registers tt
  routed-Closed r logs_in ok_id = behind r logs_in tt
  routed-Closed r refreshes ok_id = behind r refreshes tt
  routed-Closed r logs_out ok_id = behind r logs_out tt
  routed-Closed r asks_me ok_id = behind r asks_me tt
  routed-Closed r lists ok_id = behind r lists tt
  routed-Closed r (shows id) ok_id = behind r (shows id) tt
  routed-Closed r (buys id) ok_id = behind r (buys id) ok_id
  routed-Closed r (reserves id) ok_id = behind r (reserves id) ok_id
  routed-Closed r (views id) ok_id = behind r (views id) tt
  routed-Closed r (confirms id) ok_id = behind r (confirms id) tt
  routed-Closed r (releases id) ok_id = behind r (releases id) tt
  routed-Closed r lists_orders ok_id = behind r lists_orders tt
  routed-Closed r (shows_order id) ok_id = behind r (shows_order id) tt
  routed-Closed r unmatched ok_id = behind r unmatched tt

  pub serve-Closed : (r : Request Token) → IdOk Ok r.route → P (serve h r)
  unfolding serve
  serve-Closed r ok_id = c.catches _ _ (routed-Closed r r.route ok_id)
