-- ===== src/Routes/Gate/Guarded.antt =====
-- What requests do to the store through the gate.
use flashkart.Base.{ℕ, ◌≡◌, refl, subst, ◌∙◌, String, Option, List, [], ◌∷◌, map}
use flashkart.Shared.Events.{Role}
use flashkart.Runtime.{Proc, Result, ok, err, Err, Tick}
use flashkart.Runtime.Pool.{run}
use flashkart.Runtime.Guarantee.{
  Reach, here, next as one_more, Guar, gives, fails, makes, Anything, Always, returns, throws, acts,
  Guar-bind, AllGuar, AllGuar-map, run-Reach,
}
use flashkart.Store.{Mongoose, World, Action}
use flashkart.Auth.{Jwt, Env, require_auth}
use flashkart.RateLimit.Middleware.{Verdict, next, next_with, too_many, Buckets}
use flashkart.Idempotency.{IdemResult}
use flashkart.Machine.{Change}
use flashkart.Machine.Rules.{Lawful}
use flashkart.Routes.Checkout.Guarantees.{buy-Lawful, reserve-Lawful}
use flashkart.Routes.Gate.{
  Site, Served, inside, passed, Attempt, after_auth, guarded, post_buy, post_reserve,
}

-- A request through the gate, to buy or to reserve.
pub data Post (Token : Type 0) : Type 0 where
  to_buy to_reserve : Attempt Token → Post Token

abbrev pub attempt : {Token : Type 0} → Post Token → Attempt Token
attempt (to_buy a) = a
attempt (to_reserve a) = a

-- A command changes the world as the machine may, or a bucket of the limiter.
pub data SiteStep (m : Mongoose) (s : Site) : Site → Type 0 where
  worldly : (w : World) → Change m s.world w → SiteStep m s (record s { world = w })
  limits : (bs : Buckets) → SiteStep m s (record s { buckets = bs })

pub world-Reach :
    {m : Mongoose} {s s' : Site} → Reach (SiteStep m) s s' → Reach (Change m) s.world s'.world
world-Reach here = here
world-Reach (one_more r (worldly w c)) = one_more (world-Reach r) c
world-Reach (one_more r (limits bs)) = world-Reach r

module _ {m : Mongoose} where
  since :
      {s v : Site} {w : World} → s.world ≡ w → Reach (SiteStep m) s v → Reach (Change m) w v.world
  since {v = v} e r = subst (λ x. Reach (Change m) x v.world) e (world-Reach r)

  inside-Guar :
      {A : Type 0} {p : Action A} {w : World}
      → Guar (Change m) Anything w p
      → (s : Site) → s.world ≡ w
      → Guar (SiteStep m) Anything s (inside p)
  inside-Guar (gives q) s e = gives tt
  inside-Guar fails s e = fails
  inside-Guar (makes st k) s e =
      makes (λ t v r. worldly _ (st t v.world (since e r)))
        (λ t v r. inside-Guar (k t v.world (since e r)) _ refl)

  -- A handler behind the gate.
  pub inside-Always : {A : Type 0} {f : Action A} → Lawful m f → Always (SiteStep m) (inside f)
  inside-Always h s = inside-Guar (h s.world) s refl

  passed-Always :
      (verdict : Verdict) (handler : Proc Site IdemResult)
      → Always (SiteStep m) handler
      → Always (SiteStep m) (passed verdict handler)
  passed-Always next handler h = Guar-bind h (λ r. returns)
  passed-Always (next_with limit remaining) handler h = Guar-bind h (λ r. returns)
  passed-Always (too_many limit remaining secs ms) handler h = returns

  module _ {Token : Type 0} (j : Jwt Token) (env : Env) (bypass_token : String) where
    after_auth-Always :
        (bypass : Option String) (handler : String → Action IdemResult) (r : Result (String × Role))
        → ((user : String) → Lawful m (handler user))
        → Always (SiteStep m) (after_auth m j env bypass_token bypass handler r)
    after_auth-Always bypass handler (err e) h = throws
    after_auth-Always bypass handler (ok (user, role)) h =
        acts (λ t s. limits _)
          (λ t s. passed-Always _ (inside (handler user)) (inside-Always (h user)))

    pub guarded-Always :
        (a : Attempt Token) (handler : String → Action IdemResult)
        → ((user : String) → Lawful m (handler user))
        → Always (SiteStep m) (guarded m j env bypass_token a handler)
    guarded-Always a handler h =
        acts (λ t s. limits s.buckets) (λ t s. after_auth-Always a.bypass handler _ h)

module _ {Token : Type 0} (m : Mongoose) (j : Jwt Token) (env : Env) (bypass_token : String) where
  pub post : Post Token → Proc Site Served
  post (to_buy a) = post_buy m j env bypass_token a
  post (to_reserve a) = post_reserve m j env bypass_token a

  post-Always : (p : Post Token) → Always (SiteStep m) (post p)
  unfolding post post_buy post_reserve
  post-Always (to_buy a) =
      guarded-Always j env bypass_token a _ (λ user. buy-Lawful m user a.id a.quantity a.raw_key)
  post-Always (to_reserve a) =
      guarded-Always j env bypass_token a _
        (λ user. reserve-Lawful m user a.id a.quantity a.raw_key)

  -- However requests to buy and to reserve interleave behind the gate, what they do to the store is a
  -- run of the abstract machine: the gate keeps its own buckets, and makes no other change.
  pub gate_refines :
      (ps : List (Post Token)) (s : List (ℕ × Tick)) (site : Site)
      → Reach (Change m) site.world (run s (map post ps) site).1.world
  gate_refines ps s site = world-Reach (run-Reach s _ site (AllGuar-map post post-Always ps site))

  -- No token of these requests verifies, at any time.
  abbrev pub AllForeign : List (Post Token) → Type 0
  AllForeign [] = Unit {0}
  AllForeign (p ∷ ps) =
      ((now : ℕ) → (e : Err) × (require_auth m j env (attempt p).token now ≡ err e)) × AllForeign ps

  abbrev Still : Site → Site → Type 0
  Still s s' = s' ≡ s

  Still-Reach : {s s' : Site} → Reach Still s s' → s' ≡ s
  Still-Reach here = refl
  Still-Reach (one_more r e) = e ∙ Still-Reach r

  rejected :
      (bypass : Option String) (handler : String → Action IdemResult) (r : Result (String × Role))
      (e : Err)
      → r ≡ err e
      → Always Still (after_auth m j env bypass_token bypass handler r)
  rejected bypass handler r e h = rw h throws

  post-Still :
      (p : Post Token)
      → ((now : ℕ) → (e : Err) × (require_auth m j env (attempt p).token now ≡ err e))
      → Always Still (post p)
  unfolding post post_buy post_reserve
  post-Still (to_buy a) foreign =
      acts (λ t s. refl) (λ t s. rejected a.bypass _ _ (foreign t.now).0 (foreign t.now).1)
  post-Still (to_reserve a) foreign =
      acts (λ t s. refl) (λ t s. rejected a.bypass _ _ (foreign t.now).0 (foreign t.now).1)

  posts-Still :
      (ps : List (Post Token)) (site : Site) → AllForeign ps → AllGuar Still site (map post ps)
  posts-Still [] site h = tt
  posts-Still (p ∷ ps) site h = (post-Still p h.0 site, posts-Still ps site h.1)

  -- Requests whose tokens never verify leave the store and the buckets of the limiter as they are,
  -- however they interleave and whichever commands fail.
  pub foreign_shut_out :
      (ps : List (Post Token)) (s : List (ℕ × Tick)) (site : Site)
      → AllForeign ps
      → (run s (map post ps) site).1 ≡ site
  foreign_shut_out ps s site h = Still-Reach (run-Reach s _ site (posts-Still ps site h))
