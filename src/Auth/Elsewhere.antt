-- ===== src/Auth/Elsewhere.antt =====
-- The sessions and the accounts touch users and refresh keys only.
use flashkart.Base.{ℕ, refl, Bool, String, Option, none, some, not, str_eq, ◌==◌}
use flashkart.Runtime.{redis_error, mongo_error, ◌>>=◌}
use flashkart.Runtime.Within.{done, stops, Within-bind, Within-try_catch, Within-if}
use flashkart.Store.{Mongoose, User, World}
use flashkart.Machine.Aside.{
  Aside, Elsewhere, same, Elsewhere-command, Elsewhere-read, Elsewhere-local, Elsewhere-cast,
}
use flashkart.Auth.{
  Jwt, Env, Session, save_active_jti, get_active_jti, revoke_family, find_user, rotate,
  rotate_active, check_active, reject, refresh_verified, refresh_session, logout_verified, logout,
  log_in,
}
use flashkart.Auth.Accounts.{
  find_by_email, insert_user, inserted, create_user, if_new, profile_of, me,
}
use flashkart.Auth.Entry.{
  Inputs, Fields, registered, register_schema, post_register, logged_in, login_schema, post_login,
}

find_by_email-Elsewhere : (email : String) → Elsewhere (find_by_email email)
find_by_email-Elsewhere email = Elsewhere-read mongo_error _

insert_user-Aside : (user : User) (o : Option User) (w : World) → Aside w (insert_user user o w).1
insert_user-Aside user none w = (refl, refl, refl, refl, refl)
insert_user-Aside user (some existing) w = same w

inserted-Elsewhere : (o : Option User) → Elsewhere (inserted o)
inserted-Elsewhere none = stops
inserted-Elsewhere (some user) = done

create_user-Elsewhere : (email name hash : String) → Elsewhere (create_user email name hash)
create_user-Elsewhere email name hash = Within-if (str_eq name "") stops (
    Within-bind (Elsewhere-command mongo_error _ (λ t w. insert_user-Aside _ _ w))
      inserted-Elsewhere)

module _ (m : Mongoose) where
  if_new-Elsewhere :
      (email name hash : String) (o : Option User) → Elsewhere (if_new m email name hash o)
  if_new-Elsewhere email name hash none =
      Within-bind (create_user-Elsewhere email name hash) (λ user. done)
  if_new-Elsewhere email name hash (some existing) = stops

  registered-Elsewhere :
      (z : Inputs) (o : Option (String × String × String)) → Elsewhere (registered z m o)
  registered-Elsewhere z none = stops
  registered-Elsewhere z (some (email, name, password)) =
      Within-bind (find_by_email-Elsewhere _)
        (if_new-Elsewhere (z.kept_email email) (z.kept_name name) (z.hash password))

  pub post_register-Elsewhere : (z : Inputs) (f : Fields) → Elsewhere (post_register z m f)
  post_register-Elsewhere z f = registered-Elsewhere z (register_schema z f)

  profile_of-Elsewhere : (user_id : String) (o : Option User) → Elsewhere (profile_of m user_id o)
  profile_of-Elsewhere user_id none = stops
  profile_of-Elsewhere user_id (some user) = done

module _ {Token : Type 0} (m : Mongoose) (j : Jwt Token) (env : Env) where
  save-Elsewhere :
      (user_id : String) (family jti : ℕ) → Elsewhere (save_active_jti m j env user_id family jti)
  unfolding save_active_jti
  save-Elsewhere user_id family jti =
      Elsewhere-command redis_error _ (λ t w. (refl, refl, refl, refl, refl))

  revoke-Elsewhere :
      (user_id : String) (family : ℕ) → Elsewhere (revoke_family m j env user_id family)
  unfolding revoke_family
  revoke-Elsewhere user_id family =
      Elsewhere-command redis_error _ (λ t w. (refl, refl, refl, refl, refl))

  get-Elsewhere :
      (user_id : String) (family : ℕ) → Elsewhere (get_active_jti m j env user_id family)
  unfolding get_active_jti
  get-Elsewhere user_id family = Elsewhere-read redis_error _

  find_user-Elsewhere : (user_id : String) → Elsewhere (find_user m j env user_id)
  unfolding find_user
  find_user-Elsewhere user_id =
      Elsewhere-cast (m.object_id user_id) (λ id. Elsewhere-read mongo_error _)

  rotate-Elsewhere :
      (user_id : String) (family : ℕ) (user : User) → Elsewhere (rotate m j env user_id family user)
  unfolding rotate
  rotate-Elsewhere user_id family user =
      Elsewhere-local λ t w. Within-bind (save-Elsewhere user_id family t.fresh) (λ _. done)

  revoked-Elsewhere :
      (user_id : String) (family : ℕ) (msg : String)
      → Elsewhere (revoke_family m j env user_id family >>= (λ _. reject {A = Session Token} msg))
  revoked-Elsewhere user_id family msg = Within-bind (revoke-Elsewhere user_id family) (λ _. stops)

  rotate_active-Elsewhere :
      (user_id : String) (family : ℕ) (o : Option User)
      → Elsewhere (rotate_active m j env user_id family o)
  unfolding rotate_active
  rotate_active-Elsewhere user_id family none = revoked-Elsewhere user_id family _
  rotate_active-Elsewhere user_id family (some user) =
      Within-if (not user.active) (revoked-Elsewhere user_id family _)
        (rotate-Elsewhere user_id family user)

  check_active-Elsewhere :
      (user_id : String) (family jti : ℕ) (o : Option ℕ)
      → Elsewhere (check_active m j env user_id family jti o)
  unfolding check_active
  check_active-Elsewhere user_id family jti none = stops
  check_active-Elsewhere user_id family jti (some active) =
      Within-if (not (active == jti)) (revoked-Elsewhere user_id family _)
        (Within-bind (find_user-Elsewhere user_id) (rotate_active-Elsewhere user_id family))

  refresh_verified-Elsewhere :
      (o : Option (String × ℕ × ℕ)) → Elsewhere (refresh_verified m j env o)
  unfolding refresh_verified
  refresh_verified-Elsewhere none = stops
  refresh_verified-Elsewhere (some (user_id, family, jti)) =
      Within-bind (get-Elsewhere user_id family) (check_active-Elsewhere user_id family jti)

  pub refresh_session-Elsewhere : (o : Option Token) → Elsewhere (refresh_session m j env o)
  unfolding refresh_session
  refresh_session-Elsewhere none = stops
  refresh_session-Elsewhere (some token) =
      Within-if (j.is_blank token) stops (Elsewhere-local (λ t w. refresh_verified-Elsewhere _))

  logout_verified-Elsewhere : (o : Option (String × ℕ × ℕ)) → Elsewhere (logout_verified m j env o)
  unfolding logout_verified
  logout_verified-Elsewhere none = done
  logout_verified-Elsewhere (some (user_id, family, jti)) = revoke-Elsewhere user_id family

  pub logout-Elsewhere : (o : Option Token) → Elsewhere (logout m j env o)
  unfolding logout
  logout-Elsewhere none = done
  logout-Elsewhere (some token) =
      Within-if (j.is_blank token) done
        (Within-try_catch (Elsewhere-local (λ t w. logout_verified-Elsewhere _)) (λ e. done))

  log_in-Elsewhere : (o : Option User) (ok : Bool) → Elsewhere (log_in m j env o ok)
  unfolding log_in
  log_in-Elsewhere none ok = stops
  log_in-Elsewhere (some user) ok =
      Within-if (not user.active) stops
        (Within-if (not ok) stops (Elsewhere-local (λ t w. rotate-Elsewhere _ _ user)))

  logged_in-Elsewhere :
      (z : Inputs) (o : Option (String × String)) → Elsewhere (logged_in z m j env o)
  logged_in-Elsewhere z none = stops
  logged_in-Elsewhere z (some (email, password)) =
      Within-bind (find_by_email-Elsewhere _) (λ user. log_in-Elsewhere user _)

  pub post_login-Elsewhere : (z : Inputs) (f : Fields) → Elsewhere (post_login z m j env f)
  post_login-Elsewhere z f = logged_in-Elsewhere z (login_schema z f)

  pub me-Elsewhere : (user_id : String) → Elsewhere (me m j env user_id)
  me-Elsewhere user_id = Within-bind (find_user-Elsewhere user_id) (profile_of-Elsewhere m user_id)
