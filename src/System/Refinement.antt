-- ===== src/System/Refinement.antt =====
-- The program refines the abstract machine of Machine.antt.
use flashkart.Base.{ℕ, List, map}
use flashkart.Runtime.{Tick}
use flashkart.Runtime.Pool.{run}
use flashkart.Runtime.Guarantee.{Reach, returns, Guar-bind, AllGuar-map, run-Reach}
use flashkart.Store.{Mongoose, World, Action}
use flashkart.Machine.{Change}
use flashkart.Machine.Rules.{Lawful}
use flashkart.Machine.Histories.{OrdersEvolve, Reach-OrdersEvolve}
use flashkart.Machine.Holds.{HoldsEvolve, Reach-HoldsEvolve}
use flashkart.Machine.Events.{AllTold, Reach-AllTold}
use flashkart.Inventory.Reservations.Guarantees.{sweep_expired_reservations-Lawful}
use flashkart.Worker.Sweeper.Guarantees.{tick-Lawful, stop-Lawful}
use flashkart.Worker.Pipeline.Guarantees.{
  process-Lawful, on_failed-Lawful, fulfill-Lawful, notify-Lawful,
}
use flashkart.Routes.Checkout.Guarantees.{buy-Lawful, reserve-Lawful}
use flashkart.Routes.Holds.Guarantees.{confirm-Lawful, release-Lawful}
use flashkart.System.{
  Request, buys, reserves, confirms, releases, sweeps, ticks, stops, processes, fails, fulfills,
  notifies, Outcome, as_outcome, serve,
}

as_outcome-Lawful :
    {m : Mongoose}
    → {A : Type 0} (f : A → Outcome) {a : Action A} → Lawful m a
    → Lawful m (as_outcome f a)
as_outcome-Lawful f h = Guar-bind h (λ r. returns)

module _ (m : Mongoose) where
  pub serve-Lawful : (r : Request) → Lawful m (serve m r)
  unfolding serve
  serve-Lawful (buys u id q raw) = as_outcome-Lawful _ (buy-Lawful m u id q raw)
  serve-Lawful (reserves u id q raw) = as_outcome-Lawful _ (reserve-Lawful m u id q raw)
  serve-Lawful (confirms u id) = as_outcome-Lawful _ (confirm-Lawful m id u)
  serve-Lawful (releases u id) = as_outcome-Lawful _ (release-Lawful m id u)
  serve-Lawful sweeps = as_outcome-Lawful _ (sweep_expired_reservations-Lawful m)
  serve-Lawful ticks = as_outcome-Lawful _ (tick-Lawful m)
  serve-Lawful stops = as_outcome-Lawful _ stop-Lawful
  serve-Lawful (processes b id) = as_outcome-Lawful _ (process-Lawful m b id)
  serve-Lawful (fails n id e) = as_outcome-Lawful _ (on_failed-Lawful m n id e)
  serve-Lawful (fulfills id) = as_outcome-Lawful _ (fulfill-Lawful m id)
  serve-Lawful (notifies id) = as_outcome-Lawful _ (notify-Lawful m id)

  module _ (rs : List Request) (s : List (ℕ × Tick)) (w : World) where
    abbrev after : World
    after = (run s (map (serve m) rs) w).1

    -- However the requests, jobs and timers interleave, and whichever commands fail, what they do to
    -- the store is a run of the abstract machine.
    pub serve_refines : Reach (Change m) w after
    serve_refines = run-Reach s _ w (AllGuar-map (serve m) serve-Lawful rs w)

    -- In any such run every order stays where it is, keeps its product, buyer, quantity and price, and
    -- moves by the steps of its status only; an order that came meanwhile has a total of price times
    -- quantity, and went from `pending` by such steps.
    pub orders_evolve : OrdersEvolve w.orders after.orders
    orders_evolve = Reach-OrdersEvolve serve_refines

    -- In any such run every reservation stays where it is, keeps its product, buyer, quantity and
    -- deadline, and leaves the status `held` once at most, for good; one that came meanwhile has a
    -- positive quantity, and began as `held`.
    pub holds_evolve : HoldsEvolve w.reservations after.reservations
    holds_evolve = Reach-HoldsEvolve serve_refines

    -- In any such run every order event tells the truth, if those that were sent before did: it names
    -- an order of the store and its user, and the order has come to the status that the event tells,
    -- or went on from there.
    pub events_true : AllTold m w → AllTold m after
    events_true = Reach-AllTold serve_refines
