-- ===== src/Worker/Sweeper.antt =====
-- worker/src/sweeper.ts. `stopped` and `inflight` are variables of the process; the interval timer
-- only starts ticks.
pub mod Guarantees
pub mod Accounting
use flashkart.Base.{ℕ, zero, suc, ◌∷◌, Bool, true, false, Option, none, some, String, ◌||◌, not}
use flashkart.Shared.Events.{StockEvent, StockEventReason}
use flashkart.Runtime.{ret, throw, act, try_catch, ◌>>=◌}
use flashkart.Store.{Mongoose, World, Action, ReservationStatus, Reservation, redis, date_now}
use flashkart.Inventory.{incrby, emit_stock}
use flashkart.Inventory.Reservations.{transition, overdue}

abbrev pub max_per_tick : ℕ
max_per_tick = 100

-- The event of a reclaimed hold; here a failure of the command rejects.
unfoldable pub publish_stock : String → ℕ → StockEventReason → Action (Unit {0})
publish_stock product_id left reason = emit_stock product_id left reason

abbrev pub busy : World → Bool
busy w = w.sweeper_stopped || w.sweeper_inflight

-- `if (stopped || inflight) return; inflight = true`
abbrev pub claim_tick : Bool → World → World
claim_tick true w = w
claim_tick false w = record w { sweeper_inflight = true }

pub enter : Action Bool
enter = act (λ t w. claim_tick (busy w) w) (λ t w. ret (not (busy w)))

pub leave : Action (Unit {0})
leave = act (λ t w. record w { sweeper_inflight = false }) (λ t w. ret tt)

pub stop : Action (Unit {0})
stop = act (λ t w. record w { sweeper_stopped = true }) (λ t w. ret tt)

module _ (m : Mongoose) where
  pub reclaim : Reservation → Action (Unit {0})
  reclaim d = do
    left ← incrby (m.to_hex d.product_id) d.quantity
    publish_stock (m.to_hex d.product_id) left StockEventReason.sweep_expired

  -- One round, from the hold that was expired, and the rounds to come.
  pub after_expiry : ℕ → Action ℕ → Option Reservation → Action ℕ
  after_expiry reclaimed rest none = ret reclaimed
  after_expiry reclaimed rest (some d) = do _ ← reclaim d; rest

  -- The loop, with the rounds left, the time at which it began, and the count so far.
  pub batch : ℕ → ℕ → ℕ → Action ℕ
  batch zero now reclaimed = ret reclaimed
  batch (suc rounds) now reclaimed =
      transition (overdue now) ReservationStatus.expired
      >>= after_expiry reclaimed (batch rounds now (suc reclaimed))

  pub sweep_once : Action (Unit {0})
  sweep_once = do now ← date_now; _ ← batch max_per_tick now 0; ret tt

  -- Errors of the loop are logged, and the flag is cleared on every way out.
  pub run_tick : Bool → Action (Unit {0})
  run_tick false = ret tt
  run_tick true = do _ ← try_catch sweep_once (λ e. ret tt); leave

  pub tick : Action (Unit {0})
  tick = do entered ← enter; run_tick entered
