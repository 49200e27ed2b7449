-- ===== src/Inventory/Reservations/Sweeping.antt =====
-- Releasing a hold and sweeping the overdue ones keep the account of every product.
use flashkart.Base.{
  ℕ, zero, suc, ◌+◌, ◌≡◌, refl, true, String, Option, none, some, arith, Bool-cases, inl, inr,
}
use flashkart.Runtime.{Result, ok, err}
use flashkart.Runtime.Ledger.{Safe, Safe-bind, Safe-local, Safe-weaken}
use flashkart.Store.{Mongoose, Product, Action, Reservation, ReservationStatus, cast, is_held}
use flashkart.Inventory.Account.{stock_account}
use flashkart.Inventory.Commands.{
  Refunded, Settled, Failed-redis, Failed-kept, incrby-Safe, units-of_product,
}
use flashkart.Inventory.{incrby}
use flashkart.Inventory.Reservations.Transitions.{Moved, transition-Safe}
use flashkart.Inventory.Reservations.Accounting.{after_release-Safe}
use flashkart.Inventory.Reservations.{
  transition, releasable, overdue, after_release, release_reservation, after_expiry, sweep,
  sweep_expired_reservations,
}

module _ (m : Mongoose) (catalog : Option Product) (p : ℕ) where
  pub release_reservation-Safe :
      (reservation_id : String) (c : ℕ)
      → Safe
          (stock_account m catalog p)
          (Settled m catalog p c)
          (release_reservation m reservation_id)
          c
  unfolding release_reservation
  release_reservation-Safe reservation_id c =
      elim (Bool-cases (m.is_valid_object_id reservation_id)) [
        | inr e ↦ rw e refl
        | inl e ↦ rw e (
            Safe-bind (stock_account m catalog p) (Moved m catalog p ReservationStatus.released c)
              (Settled m catalog p c) _ (after_release m reservation_id) c
              (flips (m.object_id reservation_id))
              (λ o c' h. after_release-Safe m catalog p reservation_id c c' o h)
              (λ e c' h. Failed-kept m catalog p c c' e h))
      ]
    where
      flips :
          (o : Option ℕ)
          → Safe
              (stock_account m catalog p)
              (Moved m catalog p ReservationStatus.released c)
              (cast o λ id. transition (releasable id) ReservationStatus.released)
              c
      flips none = refl
      flips (some id) =
          transition-Safe m catalog p (releasable id) ReservationStatus.released
            (λ r h. ground arith) c

  -- Putting back the units of a hold that was just expired.
  pub reclaimed-Safe :
      (d : Reservation) (c c' : ℕ)
      → Moved m catalog p ReservationStatus.expired c (ok (some d)) c'
      → Safe
          (stock_account m catalog p)
          (Settled m catalog p c)
          (incrby (m.to_hex d.product_id) d.quantity)
          c'
  reclaimed-Safe d c c' h =
      Safe-weaken (stock_account m catalog p)
        (Refunded m catalog p (m.to_hex d.product_id) d.quantity c') (Settled m catalog p c)
        (incrby (m.to_hex d.product_id) d.quantity) c'
        (incrby-Safe m catalog p (m.to_hex d.product_id) d.quantity c' h.1
          (omega (arith, h.0, units-of_product m catalog p d.product_id d.quantity)))
        settled
    where
      settled :
          (r : Result ℕ) (b : ℕ)
          → Refunded m catalog p (m.to_hex d.product_id) d.quantity c' r b
          → Settled m catalog p c r b
      settled (ok n) b r =
          omega (arith, r, h.0, units-of_product m catalog p d.product_id d.quantity)
      settled (err e) b r = Failed-redis m catalog p c b e (omega (arith, r.0, h.0)) r.1

  overdue_held : (now : ℕ) (r : Reservation) → overdue now r ≡ true → is_held r.status ≡ true
  overdue_held now r h = ground arith

  pub expire-Safe :
      (now c : ℕ)
      → Safe
          (stock_account m catalog p)
          (Moved m catalog p ReservationStatus.expired c)
          (transition (overdue now) ReservationStatus.expired)
          c
  expire-Safe now c =
      transition-Safe m catalog p (overdue now) ReservationStatus.expired (overdue_held now) c

  after_expiry-Safe :
      (reclaimed c c' : ℕ) (rest : Action ℕ) (o : Option Reservation)
      → Safe (stock_account m catalog p) (Settled m catalog p c) rest c
      → Moved m catalog p ReservationStatus.expired c (ok o) c'
      → Safe
          (stock_account m catalog p)
          (Settled m catalog p c)
          (after_expiry m reclaimed rest o)
          c'
  unfolding after_expiry
  after_expiry-Safe reclaimed c c' rest none s h = h
  after_expiry-Safe reclaimed c c' rest (some d) s h =
      Safe-bind (stock_account m catalog p) (Settled m catalog p {A = ℕ} c) (Settled m catalog p c)
        (incrby (m.to_hex d.product_id) d.quantity) (λ _. rest) c' (reclaimed-Safe d c c' h)
        (λ n b k. rw k s) (λ e b k. k)

  sweep-Safe :
      (rounds now reclaimed c : ℕ)
      → Safe (stock_account m catalog p) (Settled m catalog p c) (sweep m rounds now reclaimed) c
  unfolding sweep
  sweep-Safe zero now reclaimed c = refl
  sweep-Safe (suc rounds) now reclaimed c =
      Safe-bind (stock_account m catalog p) (Moved m catalog p ReservationStatus.expired c)
        (Settled m catalog p c) (transition (overdue now) ReservationStatus.expired)
        (after_expiry m reclaimed (sweep m rounds now (reclaimed + 1))) c (expire-Safe now c)
        (λ o c' h. after_expiry-Safe reclaimed c c' _ o (sweep-Safe rounds now (reclaimed + 1) c) h)
        (λ e c' h. Failed-kept m catalog p c c' e h)

  pub sweep_expired_reservations-Safe :
      (c : ℕ)
      → Safe (stock_account m catalog p) (Settled m catalog p c) (sweep_expired_reservations m) c
  unfolding sweep_expired_reservations
  sweep_expired_reservations-Safe c =
      Safe-local (stock_account m catalog p) (Settled m catalog p c) _ c
        λ t w. sweep-Safe 100 t.now 0 c
