-- ===== src/Worker/Sweeper/Accounting.antt =====
-- A tick of the sweeper keeps the account of every product.
use flashkart.Base.{ℕ, zero, suc, ◌≤◌, not, refl, Bool, true, false, Option, none, some, arith}
use flashkart.Shared.Events.{StockEventReason}
use flashkart.Runtime.{ret, ok, err, try_catch}
use flashkart.Runtime.Ledger.{
  Before, After, Safe, Safe-bind, Safe-try_catch, Safe-local, Safe-weaken,
}
use flashkart.Store.{Mongoose, Product, World, Action, Reservation, ReservationStatus}
use flashkart.Inventory.Account.{stock_account}
use flashkart.Inventory.Commands.{
  Posted, Posted→Settled, Settled, Logged, Settled→Logged, Failed-kept, emit-Safe,
}
use flashkart.Inventory.Commands.Neutral.{Neutral}
use flashkart.Inventory.{incrby}
use flashkart.Inventory.Reservations.Transitions.{Moved}
use flashkart.Inventory.Reservations.Sweeping.{reclaimed-Safe, expire-Safe}
use flashkart.Inventory.Reservations.{transition, overdue}
use flashkart.Worker.Sweeper.{
  publish_stock, enter, leave, stop, reclaim, after_expiry, batch, sweep_once, run_tick, tick,
  max_per_tick, busy, claim_tick,
}

module _ (m : Mongoose) (catalog : Option Product) (p : ℕ) where
  reclaim-Safe :
      (d : Reservation) (c c' : ℕ)
      → Moved m catalog p ReservationStatus.expired c (ok (some d)) c'
      → Safe (stock_account m catalog p) (Settled m catalog p c) (reclaim m d) c'
  unfolding reclaim publish_stock
  reclaim-Safe d c c' h =
      Safe-bind (stock_account m catalog p) (Settled m catalog p {A = ℕ} c) (Settled m catalog p c)
        (incrby (m.to_hex d.product_id) d.quantity) _ c' (reclaimed-Safe m catalog p d c c' h)
        (λ n b k.
          Safe-weaken (stock_account m catalog p) (Posted m catalog p b) (Settled m catalog p c) _ b
            (emit-Safe m catalog p (m.to_hex d.product_id) n StockEventReason.sweep_expired b)
            (Posted→Settled m catalog p c b k))
        (λ e b k. k)

  after_expiry-Safe :
      (reclaimed c c' : ℕ) (rest : Action ℕ) (o : Option Reservation)
      → Safe (stock_account m catalog p) (Settled m catalog p c) rest c
      → Moved m catalog p ReservationStatus.expired c (ok o) c'
      → Safe
          (stock_account m catalog p)
          (Settled m catalog p c)
          (after_expiry m reclaimed rest o)
          c'
  unfolding after_expiry
  after_expiry-Safe reclaimed c c' rest none s h = h
  after_expiry-Safe reclaimed c c' rest (some d) s h =
      Safe-bind (stock_account m catalog p) (Settled m catalog p {A = Unit {0}} c)
        (Settled m catalog p c) (reclaim m d) (λ _. rest) c' (reclaim-Safe d c c' h)
        (λ n b k. rw k s) (λ e b k. k)

  batch-Safe :
      (rounds now reclaimed c : ℕ)
      → Safe (stock_account m catalog p) (Settled m catalog p c) (batch m rounds now reclaimed) c
  unfolding batch
  batch-Safe zero now reclaimed c = refl
  batch-Safe (suc rounds) now reclaimed c =
      Safe-bind (stock_account m catalog p) (Moved m catalog p ReservationStatus.expired c)
        (Settled m catalog p c) (transition (overdue now) ReservationStatus.expired)
        (after_expiry m reclaimed (batch m rounds now (suc reclaimed))) c
        (expire-Safe m catalog p now c)
        (λ o c' h. after_expiry-Safe reclaimed c c' _ o (batch-Safe rounds now (suc reclaimed) c) h)
        (λ e c' h. Failed-kept m catalog p c c' e h)

  leave-Safe :
      (c c' : ℕ) → c ≤ c' → Safe (stock_account m catalog p) (Logged m catalog p c) leave c'
  unfolding leave
  leave-Safe c c' h = λ t w b. (c', (b.0, refl, λ h. h, b.1), h)

  sweep_once-Safe :
      (c : ℕ) → Safe (stock_account m catalog p) (Settled m catalog p c) (sweep_once m) c
  unfolding sweep_once
  sweep_once-Safe c =
      Safe-local (stock_account m catalog p) (Settled m catalog p {A = Unit {0}} c) _ c λ t w.
        Safe-bind (stock_account m catalog p) (Settled m catalog p {A = ℕ} c)
          (Settled m catalog p c) (batch m max_per_tick t.now 0) (λ _. ret tt) c
          (batch-Safe max_per_tick t.now 0 c) (λ n b k. k) (λ e b k. k)

  run_tick-Safe :
      (entered : Bool) (c : ℕ)
      → Safe (stock_account m catalog p) (Logged m catalog p c) (run_tick m entered) c
  unfolding run_tick
  run_tick-Safe false c = omega arith
  run_tick-Safe true c =
      Safe-bind (stock_account m catalog p) (Logged m catalog p {A = Unit {0}} c)
        (Logged m catalog p c) (try_catch (sweep_once m) (λ e. ret tt)) (λ _. leave) c
        (Safe-try_catch (stock_account m catalog p) (Settled m catalog p {A = Unit {0}} c)
          (Logged m catalog p c) (sweep_once m) (λ e. ret tt) c (sweep_once-Safe c)
          (λ a b k. omega (arith, k)) (λ e b k. Settled→Logged m catalog p ℕ c (err e) b k))
        (λ a b k. leave-Safe c b k) (λ e b k. k)

  claim_tick-After :
      (c : ℕ) (w : World) (busy_now : Bool)
      → Before (stock_account m catalog p) c w
      → After (stock_account m catalog p) c w c (claim_tick busy_now w)
  claim_tick-After c w true b = (b.0, refl, λ h. h, b.1)
  claim_tick-After c w false b = (b.0, refl, λ h. h, b.1)

  -- A tick returns all the units that it took, but those of a hold at which a command failed.
  pub tick-Safe : (c : ℕ) → Safe (stock_account m catalog p) (Logged m catalog p c) (tick m) c
  unfolding tick enter
  tick-Safe c = λ t w b. (c, claim_tick-After c w (busy w) b, run_tick-Safe (not (busy w)) c)

  pub stop-Neutral : Neutral m catalog p stop
  unfolding stop
  stop-Neutral c = λ t w b. (c, (b.0, refl, (λ h. h), b.1), refl)
