-- ===== src/Machine.antt =====
-- The shop as an abstract machine: the steps that a hold and an order may take (the comments of
-- api/src/models/Reservation.ts and Order.ts), and the changes that a single command may make to
-- the store. That the program only makes these is in the `Guarantees` modules of its parts.
pub mod Evolution
pub mod Histories
pub mod Holds
pub mod Events
pub mod Rules
pub mod Aside
use flashkart.Base.{
  ℕ, ◌+◌, ◌-◌, ◌*◌, ◌≤◌, ◌<◌, ◌≡◌, ◌≢◌, Bool, true, false, String, Option, none, some, List, ◌∷◌,
}
use flashkart.Shared.Events.{OrderStatus, pending, paid, fulfilled, confirmed, failed, OrderEvent}
use flashkart.Runtime.{Err}
use flashkart.Runtime.Guarantee.{Reach}
use flashkart.Machine.Evolution.{Mem}
use flashkart.Store.{
  Mongoose, World, Reservation, ReservationStatus, held, is_held, Order, Product, put_key,
  update_one,
}
use flashkart.Inventory.{amount}
use flashkart.Inventory.Reservations.{set_status}
use flashkart.Worker.Pipeline.{in_status, set_order_status, set_failed, set_attempts}

-- What an order's status may become.
pub data OrderStep : OrderStatus → OrderStatus → Type 0 where
  pays : OrderStep pending paid
  ships : OrderStep paid fulfilled
  tells : OrderStep fulfilled confirmed
  fails : OrderStep pending failed

-- What a hold's status may become.
pub data HoldStep : ReservationStatus → ReservationStatus → Type 0 where
  confirms : HoldStep held ReservationStatus.confirmed
  expires : HoldStep held ReservationStatus.expired
  releases : HoldStep held ReservationStatus.released

abbrev pub IsNewOrder : Order → Type 0
IsNewOrder o =
    (o.status ≡ pending)
    × (o.total_paise ≡ o.unit_price_paise * o.quantity)
    × (o.payment_attempts ≡ 0)

abbrev pub set_stock : World → String → ℕ → World
set_stock w key n = record w { stock = put_key w.stock key n }

-- What an event says is true of an order: it is that user's, and has come to that status, and
-- perhaps further.
pub record Told (m : Mongoose) (orders : List Order) (ev : OrderEvent) : Type 0 where
  pub subject : Order
  pub listed : Mem subject orders
  pub its_id : m.object_id ev.order_id ≡ some subject.id
  pub its_user : ev.user_id ≡ m.to_hex subject.user_id
  pub reached : Reach OrderStep ev.status subject.status

-- One command's change of the store.
pub data Change (m : Mongoose) (w : World) : World → Type 0 where
  keeps : Change m w w
  -- The counter of a product: a sale, a return, and the first price list.
  sells :
      (key : String) (n qty : ℕ)
      → w.stock key ≡ some n
      → qty ≤ n
      → Change m w (set_stock w key (n - qty))
  returns : (key : String) (qty : ℕ) → Change m w (set_stock w key (amount (w.stock key) + qty))
  primes : (key : String) (n : ℕ) → w.stock key ≡ none → Change m w (set_stock w key n)
  holds :
      (r : Reservation)
      → r.status ≡ held
      → 0 < r.quantity
      → Change m w (record w { reservations = r ∷ w.reservations })
  moves_hold :
      (p : Reservation → Bool) (s : ReservationStatus)
      → HoldStep held s
      → ((r : Reservation) → p r ≡ true → r.status ≡ held)
      → Change m w (record w { reservations = update_one p (set_status s) w.reservations })
  orders :
      (o : Order) → IsNewOrder o → 0 < o.quantity → Change m w (record w { orders = o ∷ w.orders })
  moves_order :
      (id : ℕ) (s s' : OrderStatus)
      → OrderStep s s'
      → Change m w
          (record w { orders = update_one (in_status id s) (set_order_status s') w.orders })
  fails_order :
      (id : ℕ) (reason : Err)
      → Change m w
          (record w { orders = update_one (in_status id pending) (set_failed reason) w.orders })
  counts_attempt :
      (p : Order → Bool) (n : ℕ)
      → Change m w (record w { orders = update_one p (set_attempts n) w.orders })
  announces :
      (ev : OrderEvent)
      → Told m w.orders ev
      → Change m w (record w { order_events = ev ∷ w.order_events })
  -- Whatever leaves stock, catalog, holds, orders and their events as they are.
  aside :
      (w' : World)
      → (w'.stock ≡ w.stock)
        × (w'.products ≡ w.products)
        × (w'.reservations ≡ w.reservations)
        × (w'.orders ≡ w.orders)
        × (w'.order_events ≡ w.order_events)
      → Change m w w'
