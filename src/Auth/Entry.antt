-- ===== src/Auth/Entry.antt =====
-- api/src/routes/auth.ts, what stands around the accounts: the schemas of the bodies of `/register`
-- and `/login`, and the cookie of the refresh token.
use flashkart.Base.{ℕ, ◌*◌, Bool, true, String, Option, none, some, leb, ◌&&◌, if◌then◌else◌}
use flashkart.Shared.Failures
use flashkart.Runtime.{throw, app}
use flashkart.Store.{Mongoose, Action}
use flashkart.Auth.{Jwt, Env, Session, Profile}
use flashkart.Auth.Accounts

-- Of zod, what an email is; of JavaScript, the length of a text; of mongoose, how the schema of
-- users keeps an email and a name (`lowercase`, `trim`); of bcrypt, its two functions.
pub record Inputs : Type 0 where
  pub is_email : String → Bool
  pub units : String → ℕ
  pub kept_email : String → String
  pub kept_name : String → String
  pub hash : String → String
  pub matches : String → String → Bool

-- A body; a field that is missing, or is no text, is `none`.
pub record Fields : Type 0 where
  pub email : Option String
  pub name : Option String
  pub password : Option String

-- The attributes of the cookie `frt`, the time in milliseconds.
pub record Cookie : Type 0 where
  pub http_only : Bool
  pub secure : Bool
  pub same_site : String
  pub path : String
  pub max_age : ℕ

abbrev pub refresh_cookie_options : Bool → Env → Cookie
refresh_cookie_options production env = record {
  http_only = true;
  secure = production;
  same_site = "lax";
  path = "/auth";
  max_age = env.refresh_ttl * 1000;
}

-- `{ ...refreshCookieOptions(), maxAge: 0 }`
abbrev pub cleared_cookie : Bool → Env → Cookie
cleared_cookie production env = record (refresh_cookie_options production env) { max_age = 0 }

module _ (z : Inputs) where
  -- `z.string().min(low).max(high)`
  abbrev pub sized : ℕ → ℕ → Option String → Option String
  sized low high none = none
  sized low high (some s) = if leb low (z.units s) && leb (z.units s) high then some s else none

  -- `z.string().email().max(200)`
  abbrev pub email_text : Option String → Option String
  email_text none = none
  email_text (some s) = if z.is_email s && leb (z.units s) 200 then some s else none

  abbrev pub all_three :
      Option String → Option String → Option String → Option (String × String × String)
  all_three (some email) (some name) (some password) = some (email, name, password)
  all_three _ _ _ = none

  abbrev pub both : Option String → Option String → Option (String × String)
  both (some email) (some password) = some (email, password)
  both _ _ = none

  abbrev pub register_schema : Fields → Option (String × String × String)
  register_schema f = all_three (email_text f.email) (sized 1 80 f.name) (sized 8 200 f.password)

  abbrev pub login_schema : Fields → Option (String × String)
  login_schema f = both (email_text f.email) (sized 1 200 f.password)

  module _ (m : Mongoose) where
    abbrev pub registered : Option (String × String × String) → Action Profile
    registered none = throw (app (Failures.bad_request "invalid input"))
    registered (some (email, name, password)) =
        Accounts.register m (z.kept_email email) (z.kept_name name) (z.hash password)

    -- `POST /register`, from the body.
    abbrev pub post_register : Fields → Action Profile
    post_register f = registered (register_schema f)

    module _ {Token : Type 0} (j : Jwt Token) (env : Env) where
      abbrev pub logged_in : Option (String × String) → Action (Session Token)
      logged_in none = throw (app (Failures.bad_request "invalid input"))
      logged_in (some (email, password)) =
          Accounts.login m j env (z.kept_email email) (z.matches password)

      -- `POST /login`, from the body.
      abbrev pub post_login : Fields → Action (Session Token)
      post_login f = logged_in (login_schema f)
