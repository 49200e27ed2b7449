-- ===== src/Auth.antt =====
-- api/src/auth (tokens.ts, refreshStore.ts), api/src/middleware/requireAuth.ts, and the sessions of
-- api/src/routes/auth.ts. JWT and bcrypt are parameters.
pub mod Lifetimes
pub mod Rotation
pub mod Race
pub mod Access
pub mod Accounts
pub mod Entry
pub mod Elsewhere
use flashkart.Base.{
  ℕ, ◌+◌, ◌*◌, ◌<◌, ◌≡◌, ◌≢◌, Bool, true, false, String, Option, none, some, List, [], ◌∷◌, ◌==◌,
  ltb, str_eq, not, ◌||◌, if◌then◌else◌,
}
use flashkart.Shared.Events.{Role}
use flashkart.Shared.Errors.{AppError}
use flashkart.Shared.Failures
use flashkart.Runtime.{Tick, Result, ok, err, Err, app, ret, throw, act, try_catch, ◌>>=◌}
use flashkart.Store.{Mongoose, World, User, Action, redis, mongo, cast, find_one, date_now}

-- The claims of the two kinds of token; the constructor is the claim `typ`.
pub data Payload : Type 0 where
  access : String → Role → Payload
  refresh : String → ℕ → ℕ → Payload

-- What the program relies on of jsonwebtoken, whose tokens it only tests with `!token`: a token made with a secret verifies under it until it
-- expires, and under no other secret.
pub record Jwt (Token : Type 0) : Type 0 where
  pub is_blank : Token → Bool
  pub sign : String → Payload → ℕ → ℕ → Token
  pub verify : String → Token → ℕ → Option Payload
  pub verify-sign :
      (secret : String) (p : Payload) (issued ttl now : ℕ)
      → now < issued + ttl
      → verify secret (sign secret p issued ttl) now ≡ some p
  pub sign-is_blank :
      (secret : String) (p : Payload) (issued ttl : ℕ) → is_blank (sign secret p issued ttl) ≡ false
  pub verify-other :
      (secret other : String) (p : Payload) (issued ttl now : ℕ)
      → secret ≢ other
      → verify other (sign secret p issued ttl) now ≡ none

-- `env`, with the lifetimes in seconds.
pub record Env : Type 0 where
  pub access_secret : String
  pub refresh_secret : String
  pub access_ttl : ℕ
  pub refresh_ttl : ℕ

-- What a reply tells of a user.
pub record Profile : Type 0 where
  pub id : String
  pub email : String
  pub name : String
  pub role : Role

abbrev pub profile : String → User → Profile
profile user_id user = record {
  id = user_id;
  email = user.email;
  name = user.name;
  role = user.role;
}

-- The reply of a login or a refresh, with the cookie.
pub record Session (Token : Type 0) : Type 0 where
  pub access_token : Token
  pub refresh_token : Token
  pub user : Profile

abbrev pub admitted : Option (String × Role) → Result (String × Role)
admitted none = err (app (Failures.unauthenticated "invalid or expired access token"))
admitted (some p) = ok p

abbrev only_access : Option Payload → Option (String × Role)
only_access none = none
only_access (some (access user_id role)) = some (user_id, role)
only_access (some (refresh user_id family_id jti)) = none

abbrev only_refresh : Option Payload → Option (String × ℕ × ℕ)
only_refresh none = none
only_refresh (some (access user_id role)) = none
only_refresh (some (refresh user_id family_id jti)) = some (user_id, family_id, jti)

-- The keys `refresh:<user>:<family>`; an expired one is missing.
abbrev pub put_session : World → String → ℕ → Option (ℕ × ℕ) → World
put_session w user_id family_id v = record w {
  sessions = λ u f.
      if str_eq user_id u then (if family_id == f then v else w.sessions u f) else w.sessions u f;
}

abbrev pub live_jti : Option (ℕ × ℕ) → ℕ → Option ℕ
live_jti none now = none
live_jti (some (jti, expires_at)) now = if ltb now expires_at then some jti else none

abbrev pub reject : {A : Type 0} → String → Action A
reject msg = throw (app (Failures.unauthenticated msg))

-- `randomUUID()`, with the clock that the signatures use.
abbrev pub uuid : Action (ℕ × ℕ)
uuid = act (λ t w. w) (λ t w. ret (t.fresh, t.now))

module _ {Token : Type 0} (m : Mongoose) (j : Jwt Token) (env : Env) where
  unfoldable pub sign_access : String → Role → ℕ → Token
  sign_access user_id role now =
      j.sign env.access_secret (access user_id role) now (env.access_ttl * 1000)

  unfoldable pub sign_refresh : String → ℕ → ℕ → ℕ → Token
  sign_refresh user_id family_id jti now =
      j.sign env.refresh_secret (refresh user_id family_id jti) now (env.refresh_ttl * 1000)

  unfoldable pub verify_access : Token → ℕ → Option (String × Role)
  verify_access token now = only_access (j.verify env.access_secret token now)

  unfoldable pub verify_refresh : Token → ℕ → Option (String × ℕ × ℕ)
  verify_refresh token now = only_refresh (j.verify env.refresh_secret token now)

  unfoldable pub save_active_jti : String → ℕ → ℕ → Action (Unit {0})
  save_active_jti user_id family_id jti =
      redis
        λ t w. (tt, put_session w user_id family_id (some (jti, t.now + env.refresh_ttl * 1000)))

  unfoldable pub get_active_jti : String → ℕ → Action (Option ℕ)
  get_active_jti user_id family_id = redis λ t w. (live_jti (w.sessions user_id family_id) t.now, w)

  unfoldable pub revoke_family : String → ℕ → Action (Unit {0})
  revoke_family user_id family_id = redis λ t w. (tt, put_session w user_id family_id none)

  unfoldable pub find_user : String → Action (Option User)
  find_user user_id =
      cast (m.object_id user_id) λ id. mongo λ t w. (find_one (λ u. u.id == id) w.users, w)

  unfoldable pub rotate : String → ℕ → User → Action (Session Token)
  unfolding sign_access sign_refresh save_active_jti
  rotate user_id family_id user = do
    minted ← uuid
    _ ← save_active_jti user_id family_id minted.0
    ret (record {
      access_token = sign_access user_id user.role minted.1;
      refresh_token = sign_refresh user_id family_id minted.0 minted.1;
      user = profile user_id user;
    })

  unfoldable pub rotate_active : String → ℕ → Option User → Action (Session Token)
  unfolding rotate revoke_family
  rotate_active user_id family_id none = do
    _ ← revoke_family user_id family_id
    reject "user inactive"
  rotate_active user_id family_id (some user) =
      if not user.active
      then revoke_family user_id family_id >>= (λ _. reject "user inactive")
      else rotate user_id family_id user

  unfoldable pub check_active : String → ℕ → ℕ → Option ℕ → Action (Session Token)
  unfolding find_user rotate_active revoke_family
  check_active user_id family_id jti none = reject "session revoked"
  check_active user_id family_id jti (some active) =
      if not (active == jti)
      then revoke_family user_id family_id
        >>= (λ _. reject "refresh token reuse detected — session revoked")
      else find_user user_id >>= rotate_active user_id family_id

  unfoldable pub refresh_verified : Option (String × ℕ × ℕ) → Action (Session Token)
  unfolding check_active get_active_jti
  refresh_verified none = reject "invalid refresh token"
  refresh_verified (some (user_id, family_id, jti)) =
      get_active_jti user_id family_id >>= check_active user_id family_id jti

  -- `POST /auth/refresh`, from the cookie; an empty one is falsy.
  unfoldable pub refresh_session : Option Token → Action (Session Token)
  unfolding refresh_verified verify_refresh
  refresh_session none = reject "no refresh token"
  refresh_session (some token) =
      if j.is_blank token
      then reject "no refresh token"
      else date_now >>= (λ now. refresh_verified (verify_refresh token now))

  unfoldable pub logout_verified : Option (String × ℕ × ℕ) → Action (Unit {0})
  unfolding revoke_family
  logout_verified none = ret tt
  logout_verified (some (user_id, family_id, jti)) = revoke_family user_id family_id

  -- `POST /auth/logout`: a bad token, and a failure to revoke, are ignored.
  unfoldable pub logout : Option Token → Action (Unit {0})
  unfolding logout_verified verify_refresh
  logout none = ret tt
  logout (some token) =
      if j.is_blank token
      then ret tt
      else try_catch (date_now >>= (λ now. logout_verified (verify_refresh token now)))
          (λ e. ret tt)

  -- `requireAuth`, from the token of the header `Authorization: Bearer`.
  unfoldable pub require_auth : Option Token → ℕ → Result (String × Role)
  unfolding verify_access
  require_auth none now = err (app (Failures.unauthenticated "missing access token"))
  require_auth (some token) now =
      if j.is_blank token
      then err (app (Failures.unauthenticated "missing access token"))
      else admitted (verify_access token now)

  -- The end of `login`, from the user found under the email; `matches` is bcrypt's answer.
  unfoldable pub log_in : Option User → Bool → Action (Session Token)
  unfolding rotate
  log_in none matches = reject "invalid credentials"
  log_in (some user) matches =
      if not user.active
      then reject "invalid credentials"
      else if not matches
      then reject "invalid credentials"
      else uuid >>= (λ minted. rotate (m.to_hex user.id) minted.0 user)
