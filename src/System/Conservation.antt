-- ===== src/System/Conservation.antt =====
-- No interleaving of any requests, jobs and timers makes a unit of stock out of nothing.
use flashkart.Base.{ℕ, ◌+◌, ◌≤◌, ◌≡◌, false, Option, List, [], ◌∷◌, map, All, true_not_false}
use flashkart.Runtime.{ret, Result, ok, Tick}
use flashkart.Runtime.Pool.{run}
use flashkart.Runtime.Ledger.{Safe, Safe-bind}
use flashkart.Runtime.Settling
use flashkart.Store.{Mongoose, Product, World, Action}
use flashkart.Inventory.Account.{stock_account, pool_of, committed, IsSound}
use flashkart.Inventory.Commands.{Kept, Settled, Logged, Spent}
use flashkart.Inventory.Reservations.Sweeping.{sweep_expired_reservations-Safe}
use flashkart.Worker.Sweeper.Accounting.{tick-Safe, stop-Neutral}
use flashkart.Worker.Pipeline.Handlers.{process-Neutral, fulfill-Neutral, notify-Neutral}
use flashkart.Worker.Pipeline.Compensation.{on_failed-Safe}
use flashkart.Routes.Checkout.Accounting.{buy-Safe, reserve-Safe}
use flashkart.Routes.Holds.Accounting.{confirm-Safe, release-Safe}
use flashkart.System.{
  Request, buys, reserves, confirms, releases, sweeps, ticks, stops, processes, fails, fulfills,
  notifies, Outcome, as_outcome, serve, IsRegular, swallows,
}

module _ (m : Mongoose) (catalog : Option Product) (p : ℕ) where
  -- What a request owns at its end: nothing, if it ends well and swallows no error.
  abbrev pub Ends : Request → Result Outcome → ℕ → Type 0
  Ends = Settling.Ends (stock_account m catalog p) (λ r o. swallows r)

  ends :
      {A : Type 0} (Q : Result A → ℕ → Type 0) (r : Request) (f : A → Outcome) (a : Action A)
      → Safe (stock_account m catalog p) Q a 0
      → ((x : A) (c : ℕ) → Q (ok x) c → swallows r ≡ false → c ≡ 0)
      → Safe (stock_account m catalog p) (Ends r) (as_outcome f a) 0
  ends Q r f a s h =
      Safe-bind (stock_account m catalog p) Q (Ends r) a (λ x. ret (f x)) 0 s h (λ e c k. tt)

  pub serve-Safe :
      (r : Request) → IsRegular m r → Safe (stock_account m catalog p) (Ends r) (serve m r) 0
  unfolding serve
  serve-Safe (buys u id q raw) ok_id = rw ok_id.1 (
      ends (Spent m catalog p 0) (buys u (m.to_hex ok_id.0) q raw) _ _
        (buy-Safe m catalog p u ok_id.0 q raw 0) (λ x c k h. k))
  serve-Safe (reserves u id q raw) ok_id = rw ok_id.1 (
      ends (Spent m catalog p 0) (reserves u (m.to_hex ok_id.0) q raw) _ _
        (reserve-Safe m catalog p u ok_id.0 q raw 0) (λ x c k h. k))
  serve-Safe (confirms u id) _ =
      ends (Spent m catalog p 0) (confirms u id) _ _ (confirm-Safe m catalog p id u 0)
        (λ x c k h. k)
  serve-Safe (releases u id) _ =
      ends (Spent m catalog p 0) (releases u id) _ _ (release-Safe m catalog p id u 0)
        (λ x c k h. k)
  serve-Safe stops _ =
      ends (Kept m catalog p 0) stops _ _ (stop-Neutral m catalog p 0) (λ x c k h. k)
  serve-Safe sweeps _ =
      ends (Settled m catalog p 0) sweeps _ _ (sweep_expired_reservations-Safe m catalog p 0)
        (λ x c k h. k)
  serve-Safe ticks _ =
      ends (Logged m catalog p 0) ticks _ _ (tick-Safe m catalog p 0)
        (λ x c k h. absurd (true_not_false h))
  serve-Safe (processes b id) _ =
      ends (Kept m catalog p 0) (processes b id) _ _ (process-Neutral m catalog p b id 0)
        (λ x c k h. k)
  serve-Safe (fails n id e) _ =
      ends (Logged m catalog p 0) (fails n id e) _ _ (on_failed-Safe m catalog p n id e 0)
        (λ x c k h. absurd (true_not_false h))
  serve-Safe (fulfills id) _ =
      ends (Kept m catalog p 0) (fulfills id) _ _ (fulfill-Neutral m catalog p id 0) (λ x c k h. k)
  serve-Safe (notifies id) _ =
      ends (Kept m catalog p 0) (notifies id) _ _ (notify-Neutral m catalog p id 0) (λ x c k h. k)

  -- Each request ended well, and is none of those that swallow errors.
  abbrev pub AllWell : List Request → List (Action Outcome) → Type 0
  AllWell = Settling.AllWell (stock_account m catalog p) (λ r o. swallows r)

  serve-AllSafe :
      (rs : List Request)
      → All (IsRegular m) rs
      → All (λ r. Safe (stock_account m catalog p) (Ends r) (serve m r) 0) rs
  serve-AllSafe [] h = tt
  serve-AllSafe (r ∷ rs) h = (serve-Safe r h.0, serve-AllSafe rs h.1)

  module _ (rs : List Request) (s : List (ℕ × Tick)) (w : World) (regular : All (IsRegular m) rs)
      (sound : IsSound m catalog p w) where
    abbrev after : World
    after = (run s (map (serve m) rs) w).1

    -- For requests that spell product ids canonically, from a sound store: however the requests, jobs
    -- and timers interleave, and whichever commands fail, the units of the product that are in stock,
    -- in live reservations and in live orders are never more than there were at the start.
    pub never_oversold :
        pool_of m catalog p after + committed p after ≤ pool_of m catalog p w + committed p w
    never_oversold =
        Settling.balance-le (stock_account m catalog p) (λ r o. swallows r) (serve m) rs s w
          (serve-AllSafe rs regular) sound

    -- For the same requests, the store is sound after any prefix of any interleaving: the catalog of
    -- the product is as it was, nothing is committed while its key is missing, and every reservation
    -- and order has a positive quantity.
    pub run-IsSound : IsSound m catalog p after
    run-IsSound =
        Settling.run-Inv (stock_account m catalog p) (λ r o. swallows r) (serve m) rs s w
          (serve-AllSafe rs regular) sound

    -- When moreover all of the requests ended well, and none is a tick of the sweeper or a
    -- compensation, which swallow their errors, the two sums are equal: not one unit got lost.
    pub none_lost :
        AllWell rs (run s (map (serve m) rs) w).0
        → pool_of m catalog p after + committed p after ≡ pool_of m catalog p w + committed p w
    none_lost =
        Settling.balance-eq (stock_account m catalog p) (λ r o. swallows r) (serve m) rs s w
          (serve-AllSafe rs regular) sound
