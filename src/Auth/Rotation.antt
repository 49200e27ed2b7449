-- ===== src/Auth/Rotation.antt =====
-- api/src/auth/tokens.ts and api/src/routes/auth.ts: rotation of refresh tokens, and what happens to a token that is used again.
use flashkart.Base.{
  ℕ, ◌+◌, ◌*◌, ◌<◌, ◌≡◌, ◌≢◌, refl, sym, Option, eq_refl, false, String, some, none, List, [], ◌∷◌,
  lt→ltb, ≢→==, ==_refl, true, ◌==◌, str_eq, eq_iff, Bool-cases, inl, inr, true_not_false, ◌∙◌,
}
use flashkart.Shared.Events.{Role}
use flashkart.Runtime.{Tick, ret, ◌>>=◌}
use flashkart.Runtime.Pool.{run_alone, advance}
use flashkart.Store.{Mongoose, World, User, date_now, find_one}
use flashkart.Auth.{
  Jwt, Env, access, refresh, sign_access, sign_refresh, verify_access, verify_refresh,
  refresh_session, refresh_verified, check_active, find_user, rotate_active, rotate,
  save_active_jti, get_active_jti, revoke_family, put_session, reject, profile,
}

module _ {Token : Type 0} (m : Mongoose) (j : Jwt Token) (env : Env) where
  pub verify-sign_refresh :
      (user_id : String) (family_id jti issued now : ℕ)
      → now < issued + env.refresh_ttl * 1000
      → verify_refresh m j env (sign_refresh m j env user_id family_id jti issued) now
        ≡ some (user_id, family_id, jti)
  unfolding verify_refresh sign_refresh
  verify-sign_refresh user_id family_id jti issued now h =
      rw (j.verify-sign env.refresh_secret (refresh user_id family_id jti) issued _ now h)

  -- While both are live, an access token does not verify as a refresh token, nor a refresh token as
  -- an access token, whether the two secrets of the environment differ or are the same.
  pub kinds_apart :
      (user_id : String) (r : Role) (family_id jti issued now : ℕ)
      → now < issued + env.access_ttl * 1000
      → now < issued + env.refresh_ttl * 1000
      → (verify_refresh m j env (sign_access m j env user_id r issued) now ≡ none)
        × (verify_access m j env (sign_refresh m j env user_id family_id jti issued) now ≡ none)
  unfolding verify_refresh verify_access sign_refresh sign_access
  kinds_apart user_id r family_id jti issued now live live' =
      let a = access user_id r in
      let b = refresh user_id family_id jti in
      elim (Bool-cases (str_eq env.access_secret env.refresh_secret)) [
        | inl e ↦
            let same = (eq_iff env.access_secret env.refresh_secret).0 e in
            (
              rw (← same, j.verify-sign env.access_secret a issued _ now live) refl,
              rw (same, j.verify-sign env.refresh_secret b issued _ now live') refl,
            )
        | inr e ↦
            let apart : env.access_secret ≢ env.refresh_secret =
              λ h. true_not_false (sym ((eq_iff env.access_secret env.refresh_secret).1 h) ∙ e) in
            (
              rw (j.verify-other env.access_secret env.refresh_secret a issued _ now apart) refl,
              rw
                  (j.verify-other env.refresh_secret env.access_secret b issued _ now
                    (λ h. apart (sym h)))
                  refl,
            )
      ]

  pub opens :
      (user_id : String) (family_id jti issued : ℕ)
      → refresh_session m j env (some (sign_refresh m j env user_id family_id jti issued)) ≡ (
          date_now >>= (λ now.
            refresh_verified m j env
              (verify_refresh m j env (sign_refresh m j env user_id family_id jti issued) now)))
  unfolding refresh_session sign_refresh
  opens user_id family_id jti issued = rw (
      j.sign-is_blank env.refresh_secret (refresh user_id family_id jti) issued
        (env.refresh_ttl * 1000))

  -- What is left to run after the signature has been checked.
  opened :
      (user_id : String) (family_id jti issued : ℕ) (t : Tick) (ts : List Tick) (w : World)
      → t.now < issued + env.refresh_ttl * 1000
      → run_alone
          (t ∷ ts)
          (refresh_session m j env (some (sign_refresh m j env user_id family_id jti issued)))
          w
        ≡ run_alone ts (refresh_verified m j env (some (user_id, family_id, jti))) w
  unfolding run_alone advance
  opened user_id family_id jti issued t ts w h =
      rw (opens user_id family_id jti issued, verify-sign_refresh user_id family_id jti issued _ h)

  -- A validly signed refresh token whose id is not the live active one of its family is rejected,
  -- and the family's key is deleted, when the commands succeed.
  pub reuse_revokes :
      (user_id : String) (family_id jti issued active expires_at : ℕ) (t0 t1 t2 : Tick) (w : World)
      → t0.now < issued + env.refresh_ttl * 1000
      → w.sessions user_id family_id ≡ some (active, expires_at)
      → t1.now < expires_at
      → active ≢ jti
      → t1.fault ≡ false
      → t2.fault ≡ false
      → run_alone
          (t0 ∷ t1 ∷ t2 ∷ [])
          (refresh_session m j env (some (sign_refresh m j env user_id family_id jti issued)))
          w
        ≡ (
          reject "refresh token reuse detected — session revoked",
          put_session w user_id family_id none,
        )
  unfolding run_alone advance refresh_verified check_active get_active_jti revoke_family
  reuse_revokes user_id family_id jti issued active expires_at t0 t1 t2 w signed stored live differ
        up1 up2 =
      rw (
        opened user_id family_id jti issued t0 (t1 ∷ t2 ∷ []) w signed,
        up1,
        stored,
        lt→ltb _ _ live,
        ≢→== _ _ differ,
        up2,
      )

  -- A live refresh token of an active user, whose id is the active one, is exchanged for a new pair
  -- when the commands succeed: the new refresh token's id becomes the active one, and the pair is
  -- signed for the same user and family.
  pub rotates :
      (user_id : String) (id family_id jti issued expires_at : ℕ) (user : User)
      (t0 t1 t2 t3 t4 : Tick) (w : World)
      → t0.now < issued + env.refresh_ttl * 1000
      → w.sessions user_id family_id ≡ some (jti, expires_at)
      → t1.now < expires_at
      → m.object_id user_id ≡ some id
      → find_one (λ u. u.id == id) w.users ≡ some user
      → user.active ≡ true
      → (t1.fault ≡ false) × (t2.fault ≡ false) × (t4.fault ≡ false)
      → run_alone
          (t0 ∷ t1 ∷ t2 ∷ t3 ∷ t4 ∷ [])
          (refresh_session m j env (some (sign_refresh m j env user_id family_id jti issued)))
          w
        ≡ (
          ret (record {
            access_token = sign_access m j env user_id user.role t3.now;
            refresh_token = sign_refresh m j env user_id family_id t3.fresh t3.now;
            user = profile user_id user;
          }),
          put_session w user_id family_id (some (t3.fresh, t4.now + env.refresh_ttl * 1000)),
        )
  unfolding run_alone advance refresh_verified check_active get_active_jti find_user rotate_active
      rotate save_active_jti
  rotates user_id id family_id jti issued expires_at user t0 t1 t2 t3 t4 w signed stored live known
        found active up =
      rw (
        opened user_id family_id jti issued t0 (t1 ∷ t2 ∷ t3 ∷ t4 ∷ []) w signed,
        up.0,
        stored,
        lt→ltb _ _ live,
        ==_refl jti,
        known,
        up.1,
        found,
        active,
        up.2,
      )

  sessions-put_session :
      (w : World) (user_id : String) (family_id : ℕ) (v : Option (ℕ × ℕ))
      → (put_session w user_id family_id v).sessions user_id family_id ≡ v
  sessions-put_session w user_id family_id v = rw (eq_refl user_id, ==_refl family_id)

  -- After such an exchange the old token is worth nothing: presented once more while its signature
  -- and the session live, it is rejected as reused, and the family has no active token any more,
  -- when the commands succeed.
  pub replay_ends_family :
      (user_id : String) (id family_id jti issued expires_at : ℕ) (user : User)
      (t0 t1 t2 t3 t4 t5 t6 t7 : Tick) (w : World)
      → t0.now < issued + env.refresh_ttl * 1000
      → w.sessions user_id family_id ≡ some (jti, expires_at)
      → t1.now < expires_at
      → m.object_id user_id ≡ some id
      → find_one (λ u. u.id == id) w.users ≡ some user
      → user.active ≡ true
      → (t1.fault ≡ false) × (t2.fault ≡ false) × (t4.fault ≡ false)
      → t3.fresh ≢ jti
      → t5.now < issued + env.refresh_ttl * 1000
      → t6.now < t4.now + env.refresh_ttl * 1000
      → (t6.fault ≡ false) × (t7.fault ≡ false)
      → let token = sign_refresh m j env user_id family_id jti issued in
        let first =
          run_alone (t0 ∷ t1 ∷ t2 ∷ t3 ∷ t4 ∷ []) (refresh_session m j env (some token)) w in
        let second = run_alone (t5 ∷ t6 ∷ t7 ∷ []) (refresh_session m j env (some token)) first.1 in
        (second.0 ≡ reject "refresh token reuse detected — session revoked")
        × (second.1.sessions user_id family_id ≡ none)
  replay_ends_family user_id id family_id jti issued expires_at user t0 t1 t2 t3 t4 t5 t6 t7 w
        signed stored live known found active up differ signed' live' up' =
      let exchanged =
        rotates user_id id family_id jti issued expires_at user t0 t1 t2 t3 t4 w signed stored live
          known found active up in
      let caught =
        reuse_revokes user_id family_id jti issued t3.fresh (t4.now + env.refresh_ttl * 1000) t5 t6
          t7 (put_session w user_id family_id (some (t3.fresh, t4.now + env.refresh_ttl * 1000)))
          signed' (sessions-put_session w user_id family_id _) live' differ up'.0 up'.1 in
      (rw (exchanged, caught), rw (exchanged, caught, eq_refl user_id, ==_refl family_id))
