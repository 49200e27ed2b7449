-- ===== src/Api.antt =====
-- api/src/app.ts: the api as Express puts it together. A request is what its parsers make of it, with
-- the route that its method and path match; the limiter of all routes, those of single routes,
-- `requireAuth` and the handlers follow in the order of the source, and `errorMiddleware` is last.
pub mod Cases
pub mod Work
pub mod Refinement
pub mod Accounting
pub mod Conservation
pub mod Access
use flashkart.Base.{ℕ, Bool, true, false, String, Option, none, some, List, not, if◌then◌else◌}
use flashkart.Shared.Events.{Role}
use flashkart.Shared.Errors.{AppError}
use flashkart.Shared.Failures
use flashkart.Runtime.{Proc, ret, throw, act, Result, ok, err, Tick, ◌>>=◌, try_catch}
use flashkart.Store.{Mongoose, World, Action, Product, Order}
use flashkart.Auth
use flashkart.Auth.{Jwt, Env, Session, Profile, require_auth}
use flashkart.Auth.Accounts
use flashkart.Auth.Entry.{
  Inputs, Fields, Cookie, refresh_cookie_options, cleared_cookie, post_register, post_login,
}
use flashkart.RateLimit.{Limit, auth_limit}
use flashkart.RateLimit.Middleware.{Verdict, next, next_with, too_many, Buckets, rate_limit}
use flashkart.Idempotency.{IdemResult}
use flashkart.Routes
use flashkart.Routes.Catalog
use flashkart.Routes.Gate.{Site, Served, served, inside, Attempt, post_buy, post_reserve}
use flashkart.Routes.Gate
use flashkart.Routes.Holds
use flashkart.Routes.Holds.{HoldReply}
use flashkart.Routes.Orders

-- The routes, with the parameters of their paths.
pub data Route : Type 0 where
  lives is_ready : Route
  registers logs_in refreshes logs_out asks_me : Route
  lists : Route
  shows buys reserves : String → Route
  views confirms releases : String → Route
  lists_orders : Route
  shows_order : String → Route
  unmatched : Route

pub record Request (Token : Type 0) : Type 0 where
  pub route : Route
  pub ip : Option String
  pub bypass : Option String
  -- The token of the header `Authorization`, and that of the cookie.
  pub token : Option Token
  pub cookie : Option Token
  pub fields : Fields
  pub quantity : ℕ
  pub raw_key : Option String

pub data Response (Token : Type 0) : Type 0 where
  alive : Response Token
  readiness : ℕ × Bool × Bool → Response Token
  registered : Profile → Response Token
  session : Session Token → Cookie → Response Token
  logged_out : Cookie → Response Token
  who : Profile → Response Token
  catalog : List (ℕ × Product) → Response Token
  product : Product × Option ℕ → Response Token
  accepted : IdemResult → Response Token
  hold : HoldReply → Response Token
  orders : List Order → Response Token
  order : Order → Response Token
  limited : ℕ → ℕ → Response Token
  refused : AppError → Response Token

-- The third parties, the environment, and the ids of the products in the order of Mongo.
pub record Host (Token : Type 0) : Type 0 where
  pub mongoose : Mongoose
  pub jwt : Jwt Token
  pub env : Env
  pub inputs : Inputs
  pub bypass_token : String
  pub production : Bool
  pub ids : List ℕ

-- The limiter of all routes but `/health`: 60 requests, and one a second.
abbrev pub global_limit : Limit
global_limit = record { capacity = 60; num = 1; den = 1 }

module _ {Token : Type 0} where
  abbrev pub attempt : Request Token → String → Attempt Token
  attempt r id = record {
    token = r.token;
    bypass = r.bypass;
    id = id;
    quantity = r.quantity;
    raw_key = r.raw_key;
  }

  abbrev pub served_reply : Served → Response Token
  served_reply (served x) = accepted x
  served_reply (Gate.limited secs ms) = limited secs ms

  abbrev pub reply : {A : Type 0} → (A → Response Token) → Action A → Proc Site (Response Token)
  reply f a = inside a >>= λ x. ret (f x)

  abbrev pub pass : Verdict → Proc Site (Response Token) → Proc Site (Response Token)
  pass next rest = rest
  pass (next_with limit remaining) rest = rest
  pass (too_many limit remaining secs ms) rest = ret (limited secs ms)

  abbrev pub after_token :
      (String → Proc Site (Response Token)) → Result (String × Role) → Proc Site (Response Token)
  after_token handler (err e) = throw e
  after_token handler (ok (user_id, role)) = handler user_id

  -- `GET /health/ready`: Mongo may be disconnected at the first moment, and the ping of Redis fail
  -- at the second.
  abbrev pub get_ready : Proc Site (Response Token)
  get_ready =
      act (λ t s. s)
        (λ t s.
          act (λ t' s. s) (λ t' s. ret (readiness (Routes.ready (not t.fault) (not t'.fault)))))

  module _ (h : Host Token) where
    -- A limiter by the address of the caller.
    abbrev pub checked : Limit → String → Request Token → Tick → Buckets → Verdict × Buckets
    checked l scope r t bs = rate_limit h.bypass_token l 1 scope r.bypass t.now t.fault r.ip bs

    abbrev pub limited_by :
        Limit → String → Request Token → Proc Site (Response Token) → Proc Site (Response Token)
    limited_by l scope r rest =
        act (λ t s. record s { buckets = (checked l scope r t s.buckets).1 })
          (λ t s. pass (checked l scope r t s.buckets).0 rest)

    abbrev pub authenticated :
        Request Token → (String → Proc Site (Response Token)) → Proc Site (Response Token)
    authenticated r handler =
        act (λ t s. s)
          (λ t s. after_token handler (require_auth h.mongoose h.jwt h.env r.token t.now))

    abbrev pub session_reply : Session Token → Response Token
    session_reply s = session s (refresh_cookie_options h.production h.env)

    -- The handlers behind the limiter of all routes.
    unfoldable pub dispatch : Request Token → Route → Proc Site (Response Token)
    dispatch r registers =
        limited_by auth_limit "auth" r
          (reply registered (post_register h.inputs h.mongoose r.fields))
    dispatch r logs_in =
        limited_by auth_limit "auth" r
          (reply session_reply (post_login h.inputs h.mongoose h.jwt h.env r.fields))
    dispatch r refreshes =
        reply session_reply (Auth.refresh_session h.mongoose h.jwt h.env r.cookie)
    dispatch r logs_out =
        reply (λ _. logged_out (cleared_cookie h.production h.env))
          (Auth.logout h.mongoose h.jwt h.env r.cookie)
    dispatch r asks_me = authenticated r λ user. reply who (Accounts.me h.mongoose h.jwt h.env user)
    dispatch r lists = reply catalog (Catalog.list_products h.mongoose h.ids)
    dispatch r (shows id) = reply product (Catalog.show_product h.mongoose id)
    dispatch r (buys id) =
        post_buy h.mongoose h.jwt h.env h.bypass_token (attempt r id) >>= λ x. ret (served_reply x)
    dispatch r (reserves id) =
        post_reserve h.mongoose h.jwt h.env h.bypass_token (attempt r id) >>= λ x.
        ret (served_reply x)
    dispatch r (views id) = authenticated r λ user. reply hold (Holds.view h.mongoose id user)
    dispatch r (confirms id) = authenticated r λ user. reply hold (Holds.confirm h.mongoose id user)
    dispatch r (releases id) = authenticated r λ user. reply hold (Holds.release h.mongoose id user)
    dispatch r lists_orders = authenticated r λ user. reply orders (Orders.mine h.mongoose user)
    dispatch r (shows_order id) =
        authenticated r λ user. reply order (Orders.view h.mongoose id user)
    dispatch r _ = ret (refused (Failures.not_found "Route not found"))

    -- `/health` stands before the limiter.
    unfoldable pub routed : Request Token → Route → Proc Site (Response Token)
    unfolding dispatch
    routed r lives = ret alive
    routed r is_ready = get_ready
    routed r route = limited_by global_limit "global" r (dispatch r route)

    unfoldable pub serve : Request Token → Proc Site (Response Token)
    unfolding routed
    serve r = try_catch (routed r r.route) (λ e. ret (refused (Routes.error_reply e)))
