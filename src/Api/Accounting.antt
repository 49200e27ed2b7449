-- ===== src/Api/Accounting.antt =====
-- The handlers of the api own no units of a product once they have replied, but for refusals.
use flashkart.Base.{ℕ, ◌≡◌, refl, Bool, true, false, String, Option, true_not_false}
use flashkart.Shared.Events.{Role}
use flashkart.Runtime.{Proc, ret, throw, act, Result, ok, err, ◌>>=◌}
use flashkart.Runtime.Ledger.{
  Account, Safe, Safe-bind, Safe-try_catch, Safe-weaken, Before, After, After-keep,
}
use flashkart.Store.{Mongoose, Product, Action}
use flashkart.Machine.Aside.{Elsewhere-Neutral}
use flashkart.Inventory.Account.{stock_account}
use flashkart.Inventory.Commands.{Kept, Spent, Kept→Spent}
use flashkart.RateLimit.Middleware.{Verdict, next, next_with, too_many}
use flashkart.Idempotency.{IdemResult}
use flashkart.Routes.Checkout.Accounting.{buy-Safe, reserve-Safe}
use flashkart.Routes.Holds.Accounting.{confirm-Safe, release-Safe}
use flashkart.Routes.Gate.{
  Site, Served, inside, passed, Attempt, after_auth, guarded, post_buy, post_reserve,
}
use flashkart.System.{IsCanonical}
use flashkart.Api.{
  Request, Response, refused, Host, attempt, served_reply, reply, pass, after_token,
}
use flashkart.Api.Cases.{Closed}

abbrev pub is_refusal : {Token : Type 0} → Response Token → Bool
is_refusal (refused e) = true
is_refusal _ = false

-- A response that is no refusal leaves no units behind.
abbrev pub Clear : {Token : Type 0} → Result (Response Token) → ℕ → Type 0
Clear (ok x) c = is_refusal x ≡ false → c ≡ 0
Clear (err e) c = Unit {0}

-- What a handler behind the gate of a purchase owns at its end.
abbrev Bought : {A : Type 0} → Result A → ℕ → Type 0
Bought (ok x) c = c ≡ 0
Bought (err e) c = Unit {0}

module _ (m : Mongoose) (catalog : Option Product) (p : ℕ) where
  abbrev pub site_account : Account Site
  site_account =
      let L = stock_account m catalog p in
      record {
        balance = λ s. L.balance s.world;
        is_open = λ s. L.is_open s.world;
        Inv = λ s. L.Inv s.world;
      }

  pub inside-Safe :
      {A : Type 0} (Q : Result A → ℕ → Type 0) (f : Action A) (c : ℕ)
      → Safe (stock_account m catalog p) Q f c
      → Safe site_account Q (inside f) c
  inside-Safe Q (ret a) c s = s
  inside-Safe Q (throw e) c s = s
  inside-Safe Q (act g k) c s =
      λ t w b. let r = s t w.world b in (r.0, r.1, inside-Safe Q (k t w.world) r.0 r.2)

  passed-Safe :
      (v : Verdict) (f : Action IdemResult)
      → Safe (stock_account m catalog p) (Spent m catalog p 0) f 0
      → Safe site_account Bought (passed v (inside f)) 0
  passed-Safe next f s =
      Safe-bind site_account (Spent m catalog p 0) Bought (inside f) _ 0
        (inside-Safe (Spent m catalog p 0) f 0 s) (λ x c k. k) (λ e c k. tt)
  passed-Safe (next_with limit remaining) f s =
      Safe-bind site_account (Spent m catalog p 0) Bought (inside f) _ 0
        (inside-Safe (Spent m catalog p 0) f 0 s) (λ x c k. k) (λ e c k. tt)
  passed-Safe (too_many limit remaining secs ms) f s = refl

  module _ {Token : Type 0} where
    abbrev pub SafeReply : Proc Site (Response Token) → Type 0
    SafeReply f = Safe site_account Clear f 0

    reply-Safe :
        {A : Type 0} (f : A → Response Token) (a : Action A)
        → Safe (stock_account m catalog p) (Spent m catalog p 0) a 0
        → SafeReply (reply f a)
    reply-Safe f a s =
        Safe-bind site_account (Spent m catalog p 0) Clear (inside a) (λ x. ret (f x)) 0
          (inside-Safe (Spent m catalog p 0) a 0 s) (λ x c k h. k) (λ e c k. tt)

    pass-Safe :
        (v : Verdict) (rest : Proc Site (Response Token)) → SafeReply rest → SafeReply (pass v rest)
    pass-Safe next rest s = s
    pass-Safe (next_with limit remaining) rest s = s
    pass-Safe (too_many limit remaining secs ms) rest s = λ h. refl

    after_token-Safe :
        (handler : String → Proc Site (Response Token)) (o : Result (String × Role))
        → ((user : String) → SafeReply (handler user))
        → SafeReply (after_token handler o)
    after_token-Safe handler (err e) s = tt
    after_token-Safe handler (ok (user, role)) s = s user

module _ {Token : Type 0} (h : Host Token) (catalog : Option Product) (p : ℕ) where
  -- A command on the buckets of the limiters, or on nothing.
  kept :
      (w : Site)
      → Before (site_account h.mongoose catalog p) 0 w
      → After (site_account h.mongoose catalog p) 0 w 0 w
  kept w b = After-keep (site_account h.mongoose catalog p) 0 w b

  after_auth-Safe :
      (a : Attempt Token) (handler : String → Action IdemResult) (o : Result (String × Role))
      → ((user : String)
          → Safe
              (stock_account h.mongoose catalog p)
              (Spent h.mongoose catalog p 0)
              (handler user)
              0)
      → Safe
          (site_account h.mongoose catalog p)
          Bought
          (after_auth h.mongoose h.jwt h.env h.bypass_token a.bypass handler o)
          0
  after_auth-Safe a handler (err e) s = tt
  after_auth-Safe a handler (ok (user, role)) s =
      λ t w b. (0, kept w b, passed-Safe h.mongoose catalog p _ (handler user) (s user))

  served-Clear :
      (x : Served) (c : ℕ)
      → c ≡ 0
      → Safe (site_account h.mongoose catalog p) (Clear {Token = Token}) (ret (served_reply x)) c
  served-Clear x c e = λ _. e

  guarded-Safe :
      (a : Attempt Token) (handler : String → Action IdemResult)
      → ((user : String)
          → Safe
              (stock_account h.mongoose catalog p)
              (Spent h.mongoose catalog p 0)
              (handler user)
              0)
      → SafeReply h.mongoose catalog p {Token = Token}
          (guarded h.mongoose h.jwt h.env h.bypass_token a handler >>= λ x. ret (served_reply x))
  guarded-Safe a handler s =
      Safe-bind (site_account h.mongoose catalog p) Bought Clear
        (guarded h.mongoose h.jwt h.env h.bypass_token a handler) _ 0
        (λ t w b. (0, kept w b, after_auth-Safe a handler _ s)) served-Clear (λ e c k. tt)

  post_buy-Safe :
      (r : Request Token) (id : ℕ)
      → SafeReply h.mongoose catalog p {Token = Token} (
          post_buy h.mongoose h.jwt h.env h.bypass_token (attempt r (h.mongoose.to_hex id)) >>= λ x.
          ret (served_reply x))
  unfolding post_buy
  post_buy-Safe r id =
      guarded-Safe (attempt r (h.mongoose.to_hex id)) _
        (λ user. buy-Safe h.mongoose catalog p user id r.quantity r.raw_key 0)

  buying-Safe :
      (r : Request Token) (id : String)
      → IsCanonical h.mongoose id
      → SafeReply h.mongoose catalog p {Token = Token} (
          post_buy h.mongoose h.jwt h.env h.bypass_token (attempt r id) >>= λ x.
          ret (served_reply x))
  buying-Safe r id canonical = rw canonical.1 (post_buy-Safe r canonical.0)

  post_reserve-Safe :
      (r : Request Token) (id : ℕ)
      → SafeReply h.mongoose catalog p {Token = Token} (
          post_reserve h.mongoose h.jwt h.env h.bypass_token (attempt r (h.mongoose.to_hex id))
          >>= λ x. ret (served_reply x))
  unfolding post_reserve
  post_reserve-Safe r id =
      guarded-Safe (attempt r (h.mongoose.to_hex id)) _
        (λ user. reserve-Safe h.mongoose catalog p user id r.quantity r.raw_key 0)

  reserving-Safe :
      (r : Request Token) (id : String)
      → IsCanonical h.mongoose id
      → SafeReply h.mongoose catalog p {Token = Token} (
          post_reserve h.mongoose h.jwt h.env h.bypass_token (attempt r id) >>= λ x.
          ret (served_reply x))
  reserving-Safe r id canonical = rw canonical.1 (post_reserve-Safe r canonical.0)

  pub Safe-Closed : Closed h (IsCanonical h.mongoose) (SafeReply h.mongoose catalog p)
  Safe-Closed = record {
    answers = λ x _. refl;
    ready = λ t w b. (0, kept w b, λ t' w' b'. (0, kept w' b', λ _. refl));
    beside = λ A f a e. reply-Safe h.mongoose catalog p f a (
        Safe-weaken (stock_account h.mongoose catalog p) (Kept h.mongoose catalog p {A = A} 0)
          (Spent h.mongoose catalog p 0) a 0 (Elsewhere-Neutral h.mongoose catalog p e 0)
          (Kept→Spent h.mongoose catalog p 0));
    limits = λ l scope r rest s. λ t w b. (0, kept w b, pass-Safe h.mongoose catalog p _ rest s);
    signed =
        λ r handler s. λ t w b. (0, kept w b, after_token-Safe h.mongoose catalog p handler _ s);
    buying = buying-Safe;
    reserving = reserving-Safe;
    confirming = λ id user.
        reply-Safe h.mongoose catalog p _ _ (confirm-Safe h.mongoose catalog p id user 0);
    releasing = λ id user.
        reply-Safe h.mongoose catalog p _ _ (release-Safe h.mongoose catalog p id user 0);
    catches = λ q f s.
        Safe-try_catch (site_account h.mongoose catalog p) Clear Clear q _ 0 s (λ x c k. k)
          (λ e c k g. absurd (true_not_false g));
  }
