-- ===== src/Auth/Race.antt =====
-- api/src/routes/auth.ts: two refreshes with one token at once.
use flashkart.Base.{
  ℕ, ◌+◌, ◌*◌, ◌<◌, ◌≡◌, true, false, String, some, [], ◌∷◌, lt→ltb, ==_refl, ◌==◌,
}
use flashkart.Runtime.{Tick, ret}
use flashkart.Runtime.Pool.{run, step_at, advance}
use flashkart.Store.{Mongoose, World, User, find_one}
use flashkart.Auth.{
  Jwt, Env, Session, sign_access, sign_refresh, refresh_session, refresh_verified, check_active,
  find_user, rotate_active, rotate, save_active_jti, get_active_jti, profile,
}
use flashkart.Auth.Rotation.{opens, verify-sign_refresh}

module _ {Token : Type 0} (m : Mongoose) (j : Jwt Token) (env : Env) where
  -- The pair that a refresh makes of a new token id, at a time.
  abbrev pub pair : String → ℕ → User → Tick → Session Token
  pair user_id family_id user t = record {
    access_token = sign_access m j env user_id user.role t.now;
    refresh_token = sign_refresh m j env user_id family_id t.fresh t.now;
    user = profile user_id user;
  }

  -- Two calls with one live token, whose id is the live active one and whose user is active, when no
  -- command fails: in the schedule in which both check the token and then both read the active id,
  -- whereupon the one and then the other goes on to its end, both succeed, each with a pair of its
  -- own.
  pub both_rotate :
      (user_id : String) (id family_id jti issued expires_at : ℕ) (user : User)
      (a0 a1 a2 a3 a4 b0 b1 b2 b3 b4 : Tick) (w : World)
      → (a0.now < issued + env.refresh_ttl * 1000) × (b0.now < issued + env.refresh_ttl * 1000)
      → w.sessions user_id family_id ≡ some (jti, expires_at)
      → (a1.now < expires_at) × (b1.now < expires_at)
      → m.object_id user_id ≡ some id
      → find_one (λ u. u.id == id) w.users ≡ some user
      → user.active ≡ true
      → (a1.fault ≡ false) × (a2.fault ≡ false) × (a4.fault ≡ false)
      → (b1.fault ≡ false) × (b2.fault ≡ false) × (b4.fault ≡ false)
      → let call =
          refresh_session m j env (some (sign_refresh m j env user_id family_id jti issued)) in
        (run
          ((0, a0)
            ∷ (1, b0)
            ∷ (0, a1)
            ∷ (1, b1)
            ∷ (0, a2)
            ∷ (0, a3)
            ∷ (0, a4)
            ∷ (1, b2)
            ∷ (1, b3)
            ∷ (1, b4)
            ∷ [])
          (call ∷ call ∷ [])
          w).0
        ≡ ret (pair user_id family_id user a3) ∷ ret (pair user_id family_id user b3) ∷ []
  unfolding run step_at advance refresh_verified check_active get_active_jti find_user rotate_active
      rotate save_active_jti
  both_rotate user_id id family_id jti issued expires_at user a0 a1 a2 a3 a4 b0 b1 b2 b3 b4 w signed
        stored live known found active up up' =
      rw (
        opens m j env user_id family_id jti issued,
        verify-sign_refresh m j env user_id family_id jti issued a0.now signed.0,
        verify-sign_refresh m j env user_id family_id jti issued b0.now signed.1,
        up.0,
        up'.0,
        stored,
        lt→ltb _ _ live.0,
        lt→ltb _ _ live.1,
        ==_refl jti,
        known,
        up.1,
        found,
        active,
        up.2,
        up'.1,
        found,
        active,
        up'.2,
      )
