-- ===== src/Auth/Accounts.antt =====
-- api/src/routes/auth.ts: register, login and the profile. What bcrypt makes of the password, and
-- whether it matches, are arguments; so are the inputs
-- after zod. An email is as the schema keeps it, trimmed and in lower case.
use flashkart.Base.{ℕ, Bool, true, false, String, Option, none, some, ◌∷◌, str_eq, if◌then◌else◌}
use flashkart.Shared.Events.{buyer}
use flashkart.Shared.Failures
use flashkart.Runtime.{ret, throw, app, mongo_error, ◌>>=◌}
use flashkart.Store.{Mongoose, World, User, Action, mongo, find_one}
use flashkart.Auth.{Jwt, Env, Session, Profile, profile, log_in, find_user}

abbrev pub find_by_email : String → Action (Option User)
find_by_email email = mongo λ t w. (find_one (λ u. str_eq u.email email) w.users, w)

abbrev pub new_user : ℕ → String → String → String → User
new_user id email name password_hash = record {
  id = id;
  email = email;
  name = name;
  password_hash = password_hash;
  role = buyer;
  active = true;
}

-- The index on the email is unique: the insertion of a second user with it rejects.
abbrev pub insert_user : User → Option User → World → Option User × World
insert_user user none w = (some user, record w { users = user ∷ w.users })
insert_user user (some existing) w = (none, w)

abbrev pub inserted : Option User → Action User
inserted none = throw mongo_error
inserted (some user) = ret user

-- The schema requires a name, and an empty one, such as a trimmed blank, does not count.
abbrev pub create_user : String → String → String → Action User
create_user email name password_hash =
    if str_eq name ""
    then throw mongo_error
    else mongo (λ t w.
      insert_user (new_user t.fresh email name password_hash)
        (find_one (λ u. str_eq u.email email) w.users) w)
      >>= inserted

module _ (m : Mongoose) where
  abbrev pub if_new : String → String → String → Option User → Action Profile
  if_new email name password_hash (some existing) =
      throw (app (Failures.conflict "email already registered"))
  if_new email name password_hash none =
      create_user email name password_hash >>= (λ user. ret (profile (m.to_hex user.id) user))

  -- `POST /register`
  abbrev pub register : String → String → String → Action Profile
  register email name password_hash = find_by_email email >>= if_new email name password_hash

  abbrev pub profile_of : String → Option User → Action Profile
  profile_of user_id none = throw (app (Failures.not_found "user not found"))
  profile_of user_id (some user) = ret (profile (m.to_hex user.id) user)

module _ {Token : Type 0} (m : Mongoose) (j : Jwt Token) (env : Env) where
  -- `POST /login`, with bcrypt's answer for the user's hash.
  abbrev pub login : String → (String → Bool) → Action (Session Token)
  login email matches =
      find_by_email email >>= (λ user. log_in m j env user (verified matches user))
    where
      verified : (String → Bool) → Option User → Bool
      verified matches none = false
      verified matches (some user) = matches user.password_hash

  -- `GET /me`
  abbrev pub me : String → Action Profile
  me user_id = find_user m j env user_id >>= profile_of m user_id
