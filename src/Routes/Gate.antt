-- ===== src/Routes/Gate.antt =====
-- api/src/routes/products.ts, `POST /:id/buy` and `POST /:id/reserve` as Express composes them:
-- `requireAuth`, `buyLimiter`, and the handler. The store now has the buckets of the limiter too.
pub mod Guarded
use flashkart.Base.{ℕ, Bool, true, false, String, Option, none, some}
use flashkart.Shared.Events.{Role}
use flashkart.Runtime.{Proc, ret, throw, act, Result, ok, err, Tick, ◌>>=◌}
use flashkart.Store.{Mongoose, World, Action}
use flashkart.Auth.{Jwt, Env, require_auth}
use flashkart.RateLimit.{buy_limit}
use flashkart.RateLimit.Middleware.{Verdict, next, next_with, too_many, Buckets, rate_limit}
use flashkart.Idempotency.{IdemResult}
use flashkart.Routes.Checkout

pub record Site : Type 0 where
  pub world : World
  pub buckets : Buckets

-- The response of a handler, or the 429 with the seconds and milliseconds to wait.
pub data Served : Type 0 where
  served : IdemResult → Served
  limited : ℕ → ℕ → Served

-- A handler's commands, on the part of the store that it knows.
abbrev pub inside : {A : Type 0} → Action A → Proc Site A
inside (ret a) = ret a
inside (throw e) = throw e
inside (act g k) = act (λ t s. record s { world = g t s.world }) (λ t s. inside (k t s.world))

abbrev pub passed : Verdict → Proc Site IdemResult → Proc Site Served
passed next handler = handler >>= (λ r. ret (served r))
passed (next_with limit remaining) handler = handler >>= (λ r. ret (served r))
passed (too_many limit remaining secs ms) handler = ret (limited secs ms)

-- A buyer's request: the token of the header, the bypass header, the product, the quantity, the
-- idempotency key.
pub record Attempt (Token : Type 0) : Type 0 where
  pub token : Option Token
  pub bypass : Option String
  pub id : String
  pub quantity : ℕ
  pub raw_key : Option String

module _ {Token : Type 0} (m : Mongoose) (j : Jwt Token) (env : Env) (bypass_token : String) where
  -- `buyLimiter`, keyed by the user.
  abbrev pub check : Option String → String → Tick → Buckets → Verdict × Buckets
  check bypass user t bs =
      rate_limit bypass_token buy_limit 1 "buy" bypass t.now t.fault (some user) bs

  abbrev pub buy_limiter : Option String → String → Proc Site IdemResult → Proc Site Served
  buy_limiter bypass user handler =
      act (λ t s. record s { buckets = (check bypass user t s.buckets).1 })
        (λ t s. passed (check bypass user t s.buckets).0 handler)

  abbrev pub after_auth :
      Option String → (String → Action IdemResult) → Result (String × Role) → Proc Site Served
  after_auth bypass handler (err e) = throw e
  after_auth bypass handler (ok (user, role)) = buy_limiter bypass user (inside (handler user))

  abbrev pub guarded : Attempt Token → (String → Action IdemResult) → Proc Site Served
  guarded a handler =
      act (λ t s. s) (λ t s. after_auth a.bypass handler (require_auth m j env a.token t.now))

  unfoldable pub post_buy : Attempt Token → Proc Site Served
  post_buy a = guarded a (λ user. Checkout.buy m user a.id a.quantity a.raw_key)

  unfoldable pub post_reserve : Attempt Token → Proc Site Served
  post_reserve a = guarded a (λ user. Checkout.reserve m user a.id a.quantity a.raw_key)
