-- ===== src/Worker/Sweeper/Guarantees.antt =====
-- A tick of the sweeper only makes changes of the machine.
use flashkart.Base.{ℕ, zero, suc, refl, Bool, true, false, Option, none, some}
use flashkart.Shared.Events.{StockEventReason}
use flashkart.Runtime.Guarantee.{returns, acts, Guar-bind, Guar-try_catch}
use flashkart.Store.{Mongoose, World, Action, Reservation}
use flashkart.Machine.{Change, keeps, aside}
use flashkart.Machine.Rules.{Lawful, Lawful-read}
use flashkart.Inventory.Guarantees.{incrby-Lawful, emit_stock-Lawful}
use flashkart.Inventory.Reservations.Guarantees.{expire-Lawful}
use flashkart.Worker.Sweeper.{
  publish_stock, enter, leave, stop, reclaim, after_expiry, batch, sweep_once, run_tick, tick,
  max_per_tick, busy, claim_tick,
}

claim_tick-Change : {m : Mongoose} → (b : Bool) (w : World) → Change m w (claim_tick b w)
claim_tick-Change true w = keeps
claim_tick-Change false w = aside _ (refl, refl, refl, refl, refl)

enter-Lawful : {m : Mongoose} → Lawful m enter
unfolding enter
enter-Lawful = acts (λ t w. claim_tick-Change (busy w) w) (λ t w. returns)

leave-Lawful : {m : Mongoose} → Lawful m leave
unfolding leave
leave-Lawful = acts (λ t w. aside _ (refl, refl, refl, refl, refl)) (λ t w. returns)

pub stop-Lawful : {m : Mongoose} → Lawful m stop
unfolding stop
stop-Lawful = acts (λ t w. aside _ (refl, refl, refl, refl, refl)) (λ t w. returns)

module _ (m : Mongoose) where
  reclaim-Lawful : (d : Reservation) → Lawful m (reclaim m d)
  unfolding reclaim publish_stock
  reclaim-Lawful d =
      Guar-bind (incrby-Lawful (m.to_hex d.product_id) d.quantity)
        (λ left. emit_stock-Lawful (m.to_hex d.product_id) left StockEventReason.sweep_expired)

  after_expiry-Lawful :
      (reclaimed : ℕ) (rest : Action ℕ) (d : Option Reservation)
      → Lawful m rest
      → Lawful m (after_expiry m reclaimed rest d)
  unfolding after_expiry
  after_expiry-Lawful reclaimed rest none h = returns
  after_expiry-Lawful reclaimed rest (some d) h = Guar-bind (reclaim-Lawful d) (λ _. h)

  batch-Lawful : (rounds now reclaimed : ℕ) → Lawful m (batch m rounds now reclaimed)
  unfolding batch
  batch-Lawful zero now reclaimed = returns
  batch-Lawful (suc rounds) now reclaimed =
      Guar-bind (expire-Lawful now)
        (λ d. after_expiry-Lawful reclaimed _ d (batch-Lawful rounds now (suc reclaimed)))

  sweep_once-Lawful : Lawful m (sweep_once m)
  unfolding sweep_once
  sweep_once-Lawful =
      Lawful-read (λ t w. Guar-bind (batch-Lawful max_per_tick t.now 0) (λ _. returns))

  run_tick-Lawful : (b : Bool) → Lawful m (run_tick m b)
  unfolding run_tick
  run_tick-Lawful false = returns
  run_tick-Lawful true =
      Guar-bind (Guar-try_catch sweep_once-Lawful (λ e. returns)) (λ _. leave-Lawful)

  pub tick-Lawful : Lawful m (tick m)
  unfolding tick
  tick-Lawful = Guar-bind enter-Lawful run_tick-Lawful
