-- ===== src/Inventory/Account.antt =====
-- The units of one product: those in the pool of the Redis key, those that live reservations and
-- orders hold, and the account over the store that the ledger rules need. A product that was never
-- bought has no key yet, and its pool is the catalog's stock.
use flashkart.Base.{
  ℕ, ◌+◌, ◌<◌, ◌≡◌, Bool, true, false, String, Option, none, some, ◌==◌, str_eq, if◌then◌else◌,
  sum_by, All,
}
use flashkart.Shared.Events.{OrderStatus}
use flashkart.Store.{Mongoose, Product, Reservation, ReservationStatus, Order, World}
use flashkart.Runtime.Ledger.{Account}

-- The statuses in which a reservation, or an order, has its units.
abbrev pub reservation_keeps : ReservationStatus → Bool
reservation_keeps ReservationStatus.held = true
reservation_keeps ReservationStatus.confirmed = true
reservation_keeps ReservationStatus.expired = false
reservation_keeps ReservationStatus.released = false

abbrev pub order_keeps : OrderStatus → Bool
order_keeps OrderStatus.failed = false
order_keeps OrderStatus.pending = true
order_keeps OrderStatus.paid = true
order_keeps OrderStatus.fulfilled = true
order_keeps OrderStatus.confirmed = true

abbrev pub catalog_stock : Option Product → ℕ
catalog_stock none = 0
catalog_stock (some product) = product.stock

abbrev pub pool : Option Product → Option ℕ → ℕ
pool catalog none = catalog_stock catalog
pool catalog (some n) = n

abbrev pub has_key : Option ℕ → Bool
has_key none = false
has_key (some n) = true

abbrev pub of_product : ℕ → ℕ → ℕ → ℕ
of_product p q n = if p == q then n else 0

abbrev pub reservation_units : ℕ → Reservation → ℕ
reservation_units p r =
    if reservation_keeps r.status then of_product r.product_id p r.quantity else 0

abbrev pub order_units : ℕ → Order → ℕ
order_units p o = if order_keeps o.status then of_product o.product_id p o.quantity else 0

abbrev pub committed : ℕ → World → ℕ
committed p w = sum_by (reservation_units p) w.reservations + sum_by (order_units p) w.orders

module _ (m : Mongoose) (catalog : Option Product) (p : ℕ) where
  abbrev pub pool_of : World → ℕ
  pool_of w = pool catalog (w.stock (m.to_hex p))

  abbrev pub IsSound : World → Type 0
  IsSound w =
      (w.products p ≡ catalog)
      × (has_key (w.stock (m.to_hex p)) ≡ false → committed p w ≡ 0)
      × All (λ r. 0 < r.quantity) w.reservations
      × All (λ o. 0 < o.quantity) w.orders

  abbrev pub stock_account : Account World
  stock_account = record {
    balance = λ w. pool_of w + committed p w;
    is_open = λ w. has_key (w.stock (m.to_hex p));
    Inv = IsSound;
  }

  -- The units of this product that a key and an amount stand for.
  abbrev pub units : String → ℕ → ℕ
  units key qty = if str_eq key (m.to_hex p) then qty else 0
