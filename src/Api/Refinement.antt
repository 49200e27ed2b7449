-- ===== src/Api/Refinement.antt =====
-- The whole system refines the abstract machine of Machine.antt.
use flashkart.Base.{ℕ, String, List, map}
use flashkart.Shared.Events.{Role}
use flashkart.Runtime.{Proc, Tick, Result, ok, err}
use flashkart.Runtime.Pool.{run}
use flashkart.Runtime.Guarantee.{
  Reach, Always, returns, throws, acts, Guar-bind, Guar-try_catch, AllGuar-map, run-Reach,
}
use flashkart.Store.{Action, World}
use flashkart.Machine.{Change}
use flashkart.Machine.Rules.{Lawful}
use flashkart.Machine.Aside.{Elsewhere-Lawful}
use flashkart.Machine.Histories.{OrdersEvolve, Reach-OrdersEvolve}
use flashkart.Machine.Holds.{HoldsEvolve, Reach-HoldsEvolve}
use flashkart.Machine.Events.{AllTold, Reach-AllTold}
use flashkart.RateLimit.Middleware.{Verdict, next, next_with, too_many}
use flashkart.Routes.Checkout.Guarantees.{buy-Lawful, reserve-Lawful}
use flashkart.Routes.Holds.Guarantees.{confirm-Lawful, release-Lawful}
use flashkart.Routes.Gate.{Site, post_buy, post_reserve}
use flashkart.Routes.Gate.Guarded.{SiteStep, limits, world-Reach, inside-Always, guarded-Always}
use flashkart.System.Refinement.{serve-Lawful}
use flashkart.Api.{Response, Host, attempt, reply, pass, after_token}
use flashkart.Api.Cases.{Closed, serve-Closed, IdOk-every}
use flashkart.Api.Work.{Work, request, job, perform}

module _ {Token : Type 0} (h : Host Token) where
  reply-Always :
      {A : Type 0} (f : A → Response Token) {a : Action A}
      → Lawful h.mongoose a
      → Always (SiteStep h.mongoose) (reply f a)
  reply-Always f l = Guar-bind (inside-Always l) (λ x. returns)

  pass-Always :
      (v : Verdict) {rest : Proc Site (Response Token)}
      → Always (SiteStep h.mongoose) rest
      → Always (SiteStep h.mongoose) (pass v rest)
  pass-Always next a = a
  pass-Always (next_with limit remaining) a = a
  pass-Always (too_many limit remaining secs ms) a = returns

  after_token-Always :
      (handler : String → Proc Site (Response Token)) (o : Result (String × Role))
      → ((user : String) → Always (SiteStep h.mongoose) (handler user))
      → Always (SiteStep h.mongoose) (after_token handler o)
  after_token-Always handler (err e) a = throws
  after_token-Always handler (ok (user, role)) a = a user

  Always-Closed : Closed h (λ id. Unit {0}) (Always (SiteStep h.mongoose))
  unfolding post_buy post_reserve
  Always-Closed = record {
    answers = λ x. returns;
    ready = acts (λ t s. limits s.buckets) (λ t s. acts (λ t s. limits s.buckets) (λ t s. returns));
    beside = λ A f a e. reply-Always f (Elsewhere-Lawful e);
    limits = λ l scope r rest a. acts (λ t s. limits _) (λ t s. pass-Always _ a);
    signed = λ r handler a. acts (λ t s. limits s.buckets) (λ t s. after_token-Always handler _ a);
    buying = λ r id ok_id.
        Guar-bind
          (guarded-Always h.jwt h.env h.bypass_token (attempt r id) _
            (λ user. buy-Lawful h.mongoose user id r.quantity r.raw_key))
          (λ x. returns);
    reserving = λ r id ok_id.
        Guar-bind
          (guarded-Always h.jwt h.env h.bypass_token (attempt r id) _
            (λ user. reserve-Lawful h.mongoose user id r.quantity r.raw_key))
          (λ x. returns);
    confirming = λ id user. reply-Always _ (confirm-Lawful h.mongoose id user);
    releasing = λ id user. reply-Always _ (release-Lawful h.mongoose id user);
    catches = λ p f a. Guar-try_catch a (λ e. returns);
  }

  perform-Always : (w : Work Token) → Always (SiteStep h.mongoose) (perform h w)
  perform-Always (request r) =
      Guar-bind (serve-Closed h _ _ Always-Closed r (IdOk-every _ (λ id. tt) r.route))
        (λ x. returns)
  perform-Always (job j) = Guar-bind (inside-Always (serve-Lawful h.mongoose j)) (λ o. returns)

  -- However the requests that come in through Express, the jobs and the timers interleave, and
  -- whichever commands fail, what they do to the store is a run of the abstract machine.
  pub system-Reach :
      (ws : List (Work Token)) (s : List (ℕ × Tick)) (site : Site)
      → Reach (Change h.mongoose) site.world (run s (map (perform h) ws) site).1.world
  system-Reach ws s site =
      world-Reach (run-Reach s _ site (AllGuar-map (perform h) perform-Always ws site))

  module _ (ws : List (Work Token)) (s : List (ℕ × Tick)) (site : Site) where
    abbrev after : World
    after = (run s (map (perform h) ws) site).1.world

    -- In any such run every order stays where it is, keeps its product, buyer, quantity and price, and
    -- moves by the steps of its status only; an order that came meanwhile has a total of price times
    -- quantity, and went from `pending` by such steps.
    pub system-OrdersEvolve : OrdersEvolve site.world.orders after.orders
    system-OrdersEvolve = Reach-OrdersEvolve (system-Reach ws s site)

    -- In any such run every reservation stays where it is, keeps its product, buyer, quantity and
    -- deadline, and leaves the status `held` once at most, for good; one that came meanwhile has a
    -- positive quantity, and began as `held`.
    pub system-HoldsEvolve : HoldsEvolve site.world.reservations after.reservations
    system-HoldsEvolve = Reach-HoldsEvolve (system-Reach ws s site)

    -- In any such run every order event tells the truth, if those that were sent before did: it names
    -- an order of the store and its user, and the order has come to the status that the event tells,
    -- or went on from there.
    pub system_events_true : AllTold h.mongoose site.world → AllTold h.mongoose after
    system_events_true = Reach-AllTold (system-Reach ws s site)
