-- ===== src/Tests/Sessions.antt =====
-- A user's tokens, with a signature that is the record of what was signed.
use flashkart.Base.{
  ℕ, ◌+◌, ◌≡◌, List, true, ◌≢◌, refl, false, String, Option, some, none, [], ◌∷◌, arith, str_eq,
  ltb, lt→ltb, eq_refl, eq_iff, if◌then◌else◌, Bool-cases, inl, inr, ◌==◌,
}
use flashkart.Shared.Events.{Role, OrderEvent, paid}
use flashkart.Runtime.{ret}
use flashkart.Runtime.Pool.{run, run_alone}
use flashkart.Auth.Race.{pair, both_rotate}
use flashkart.Store.{World, find_one}
use flashkart.Auth.{
  Jwt, Env, Payload, sign_access, sign_refresh, verify_access, verify_refresh, refresh_session,
  put_session, reject, profile,
}
use flashkart.Auth.Rotation.{kinds_apart, reuse_revokes, rotates, replay_ends_family}
use flashkart.Realtime.{
  Message, subscribe, subscribe_orders, gets_order, receive_all, receive, join, join_user, room_eq,
}
use flashkart.Realtime.Privacy.{SomeProved, gets_order-SomeProved}
use flashkart.Routes.Gate.{Site}
use flashkart.Tests.Setup.{mongoose, shop, ada, spell, at}

abbrev pub Signed : Type 0
Signed = String × Payload × ℕ

abbrev pub open_signed : String → Signed → ℕ → Option Payload
open_signed secret (key, p, expires_at) now =
    if str_eq key secret then (if ltb now expires_at then some p else none) else none

pub differs : (s t : String) → s ≢ t → str_eq s t ≡ false
differs s t h = elim (Bool-cases (str_eq s t)) [ inl e ↦ absurd (h ((eq_iff s t).0 e)) | inr e ↦ e ]

abbrev pub jwt : Jwt Signed
jwt = record {
  is_blank = λ token. false;
  sign = λ secret p issued ttl. (secret, p, issued + ttl);
  verify = open_signed;
  verify-sign = λ secret p issued ttl now h. rw (eq_refl secret, lt→ltb _ _ h);
  sign-is_blank = λ secret p issued ttl. refl;
  verify-other = λ secret other p issued ttl now h. rw (differs secret other h);
}

abbrev pub env : Env
env = record { access_secret = "a"; refresh_secret = "r"; access_ttl = 900; refresh_ttl = 604800 }

ada_found : find_one (λ u. u.id == 3) shop.users ≡ some ada
unfolding find_one
ada_found = refl

abbrev signed_in : World
signed_in = put_session shop (spell 3) 1 (some (41, 604800000))

-- The two secrets are one.
abbrev careless : Env
careless = record env { refresh_secret = "a" }

kinds_apart_example :
    (verify_refresh mongoose jwt careless (sign_access mongoose jwt careless "ada" Role.buyer 0) 5
      ≡ none)
    × (verify_access mongoose jwt careless (sign_refresh mongoose jwt careless "ada" 1 41 0) 5
        ≡ none)
kinds_apart_example =
    kinds_apart mongoose jwt careless "ada" Role.buyer 1 41 0 5 (omega arith) (omega arith)

reuse_revokes_example :
    run_alone
      (at 9 0 ∷ at 9 0 ∷ at 9 0 ∷ [])
      (refresh_session mongoose jwt env (some (sign_refresh mongoose jwt env (spell 3) 1 40 0)))
      signed_in
    ≡ (
      reject "refresh token reuse detected — session revoked",
      put_session signed_in (spell 3) 1 none,
    )
reuse_revokes_example =
    reuse_revokes mongoose jwt env (spell 3) 1 40 0 41 604800000 (at 9 0) (at 9 0) (at 9 0)
      signed_in (omega arith) refl (omega arith) (omega arith) refl refl

rotates_example :
    run_alone
      (at 9 0 ∷ at 9 0 ∷ at 9 0 ∷ at 9 42 ∷ at 9 0 ∷ [])
      (refresh_session mongoose jwt env (some (sign_refresh mongoose jwt env (spell 3) 1 41 0)))
      signed_in
    ≡ (
      ret (record {
        access_token = sign_access mongoose jwt env (spell 3) Role.buyer 9;
        refresh_token = sign_refresh mongoose jwt env (spell 3) 1 42 9;
        user = profile (spell 3) ada;
      }),
      put_session signed_in (spell 3) 1 (some (42, 604800009)),
    )
rotates_example =
    rotates mongoose jwt env (spell 3) 3 1 41 0 604800000 ada (at 9 0) (at 9 0) (at 9 0) (at 9 42)
      (at 9 0) signed_in (omega arith) refl (omega arith) refl ada_found refl (refl, refl, refl)

replay_ends_family_example :
    let token = sign_refresh mongoose jwt env (spell 3) 1 41 0 in
    let first =
      run_alone
        (at 9 0 ∷ at 9 0 ∷ at 9 0 ∷ at 9 42 ∷ at 9 0 ∷ [])
        (refresh_session mongoose jwt env (some token))
        signed_in in
    let second =
      run_alone
        (at 10 0 ∷ at 10 0 ∷ at 10 0 ∷ [])
        (refresh_session mongoose jwt env (some token))
        first.1 in
    (second.0 ≡ reject "refresh token reuse detected — session revoked")
    × (second.1.sessions (spell 3) 1 ≡ none)
replay_ends_family_example =
    replay_ends_family mongoose jwt env (spell 3) 3 1 41 0 604800000 ada (at 9 0) (at 9 0) (at 9 0)
      (at 9 42) (at 9 0) (at 10 0) (at 10 0) (at 10 0) signed_in (omega arith) refl (omega arith)
      refl ada_found refl (refl, refl, refl) (omega arith) (omega arith) (omega arith) (refl, refl)

abbrev paid_event : OrderEvent
paid_event = record { order_id = "o1"; user_id = "ada"; status = paid; ts = 7 }

abbrev messages : List (ℕ × ℕ × Message Signed)
messages =
    (5, 1, subscribe "p1")
    ∷ (6, 2, subscribe_orders (sign_access mongoose jwt env "ada" Role.buyer 0))
    ∷ []

two_gets : gets_order (receive_all mongoose jwt env messages (λ s r. false)) paid_event 2 ≡ true
unfolding gets_order receive_all receive join join_user room_eq verify_access sign_access
two_gets = refl

gets_order-SomeProved_example : SomeProved mongoose jwt env 2 "ada" messages
gets_order-SomeProved_example =
    gets_order-SomeProved mongoose jwt env messages paid_event 2 two_gets

both_rotate_example :
    let call =
      refresh_session mongoose jwt env (some (sign_refresh mongoose jwt env (spell 3) 1 41 0)) in
    (run
      ((0, at 9 0)
        ∷ (1, at 9 0)
        ∷ (0, at 9 0)
        ∷ (1, at 9 0)
        ∷ (0, at 9 0)
        ∷ (0, at 9 42)
        ∷ (0, at 9 0)
        ∷ (1, at 9 0)
        ∷ (1, at 9 43)
        ∷ (1, at 9 0)
        ∷ [])
      (call ∷ call ∷ [])
      signed_in).0
    ≡ ret (pair mongoose jwt env (spell 3) 1 ada (at 9 42))
      ∷ ret (pair mongoose jwt env (spell 3) 1 ada (at 9 43))
      ∷ []
both_rotate_example =
    both_rotate mongoose jwt env (spell 3) 3 1 41 0 604800000 ada (at 9 0) (at 9 0) (at 9 0)
      (at 9 42) (at 9 0) (at 9 0) (at 9 0) (at 9 0) (at 9 43) (at 9 0) signed_in
      (omega arith, omega arith) refl (omega arith, omega arith) refl ada_found refl
      (refl, refl, refl) (refl, refl, refl)

abbrev pub forged : Signed
forged = ("x", Payload.access (spell 3) Role.buyer, 1000)

abbrev pub site : Site
site = record { world = shop; buckets = λ key. none }
