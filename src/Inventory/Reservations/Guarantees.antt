-- ===== src/Inventory/Reservations/Guarantees.antt =====
-- The operations on reservations only make changes of the machine.
use flashkart.Base.{
  ℕ, zero, suc, ◌+◌, ◌≡◌, refl, Bool, true, Bool-cases, inl, inr, String, Option, none, some, ltb,
  str_eq, arith,
}
use flashkart.Shared.Events.{StockEventReason}
use flashkart.Runtime.{mongo_error}
use flashkart.Runtime.Guarantee.{returns, throws, Guar-bind, Guar-try_catch, Guar-if}
use flashkart.Store.{Mongoose, Action, Reservation, ReservationStatus, held, is_held}
use flashkart.Machine.{keeps, moves_hold, holds, HoldStep, confirms, expires, releases}
use flashkart.Machine.Rules.{Lawful, Lawful-command, Lawful-cast, Lawful-read}
use flashkart.Inventory.{PurchaseResult}
use flashkart.Inventory.Guarantees.{incrby-Lawful, publish_stock_update-Lawful, purchase-Lawful}
use flashkart.Inventory.Reservations.{
  transition, confirmable, releasable, overdue, create, cast_optional, give_back, record_hold, hold,
  reserve, find_reservation, after_confirm, confirm_reservation, after_release, release_reservation,
  after_expiry, sweep, sweep_expired_reservations,
}

is_held-held : (s : ReservationStatus) → is_held s ≡ true → s ≡ held
unfolding is_held
is_held-held held h = refl
is_held-held ReservationStatus.confirmed h = grind arith
is_held-held ReservationStatus.expired h = grind arith
is_held-held ReservationStatus.released h = grind arith

pub transition-Lawful :
    {m : Mongoose}
    → (p : Reservation → Bool) (s : ReservationStatus) → HoldStep held s
    → ((r : Reservation) → p r ≡ true → is_held r.status ≡ true)
    → Lawful m (transition p s)
unfolding transition
transition-Lawful p s st h =
    Lawful-command mongo_error _ (λ t w. moves_hold p s st (λ r e. is_held-held r.status (h r e)))

pub expire-Lawful :
    {m : Mongoose} → (now : ℕ) → Lawful m (transition (overdue now) ReservationStatus.expired)
expire-Lawful now = transition-Lawful _ _ expires (λ r h. ground arith)

create-Lawful :
    {m : Mongoose}
    → (product_id : ℕ) (user_id : Option ℕ) (qty expires_at : ℕ)
    → Lawful m (create product_id user_id qty expires_at)
unfolding create
create-Lawful product_id user_id qty expires_at = elim (Bool-cases (ltb 0 qty)) [
  | inl h ↦ rw h (Lawful-command mongo_error _ (λ t w. holds _ refl (ground (arith, h))))
  | inr h ↦ rw h throws
]

cast_optional-Lawful :
    {m : Mongoose}
    → (user_id : Option String) (object_id : String → Option ℕ) (f : Option ℕ → Action ℕ)
    → ((u : Option ℕ) → Lawful m (f u))
    → Lawful m (cast_optional user_id object_id f)
unfolding cast_optional
cast_optional-Lawful none object_id f h = h none
cast_optional-Lawful (some user_id) object_id f h =
    Guar-if (str_eq user_id "") (h none) (Lawful-cast (object_id user_id) (λ u. h (some u)))

module _ (m : Mongoose) where
  record_hold-Lawful :
      (product_id : String) (qty : ℕ) (user_id : Option String) (left expires_at : ℕ)
      → Lawful m (record_hold m product_id qty user_id left expires_at)
  unfolding record_hold give_back
  record_hold-Lawful product_id qty user_id left expires_at =
      Guar-try_catch
        (Guar-bind
          (Lawful-cast (m.object_id product_id) (λ p.
            cast_optional-Lawful user_id m.object_id _ (λ u. create-Lawful p u qty expires_at)))
          (λ id.
            Guar-bind (publish_stock_update-Lawful product_id left StockEventReason.reserve)
              (λ _. returns)))
        (λ e. Guar-bind (incrby-Lawful product_id qty) (λ _. throws))

  hold-Lawful :
      (product_id : String) (qty : ℕ) (user_id : Option String) (r : PurchaseResult)
      → Lawful m (hold m product_id qty user_id r)
  unfolding hold
  hold-Lawful product_id qty user_id PurchaseResult.sold_out = returns
  hold-Lawful product_id qty user_id PurchaseResult.not_found = returns
  hold-Lawful product_id qty user_id (PurchaseResult.ok left) =
      Lawful-read (λ t w. record_hold-Lawful product_id qty user_id left _)

  pub reserve-Lawful :
      (product_id : String) (qty : ℕ) (user_id : Option String)
      → Lawful m (reserve m product_id qty user_id)
  unfolding reserve
  reserve-Lawful product_id qty user_id =
      Guar-bind (purchase-Lawful m product_id qty) (hold-Lawful product_id qty user_id)

  pub find_reservation-Lawful : (id : String) → Lawful m (find_reservation m id)
  unfolding find_reservation
  find_reservation-Lawful id =
      Lawful-cast (m.object_id id) (λ n. Lawful-command mongo_error _ (λ t w. keeps))

  after_confirm-Lawful : (id : String) (r : Option Reservation) → Lawful m (after_confirm m id r)
  unfolding after_confirm
  after_confirm-Lawful id (some updated) = returns
  after_confirm-Lawful id none = Guar-bind (find_reservation-Lawful id) (λ _. returns)

  pub confirm_reservation-Lawful : (id : String) → Lawful m (confirm_reservation m id)
  unfolding confirm_reservation
  confirm_reservation-Lawful id =
      Guar-if (m.is_valid_object_id id)
        (Lawful-read λ t w.
          Guar-bind
            (Lawful-cast (m.object_id id)
              (λ n. transition-Lawful (confirmable n t.now) _ confirms (λ r h. ground arith)))
            (after_confirm-Lawful id))
        returns

  after_release-Lawful : (id : String) (r : Option Reservation) → Lawful m (after_release m id r)
  unfolding after_release
  after_release-Lawful id none = Guar-bind (find_reservation-Lawful id) (λ _. returns)
  after_release-Lawful id (some updated) =
      Guar-bind (incrby-Lawful (m.to_hex updated.product_id) updated.quantity) λ left.
        Guar-bind
          (publish_stock_update-Lawful (m.to_hex updated.product_id) left StockEventReason.release)
          (λ _. returns)

  pub release_reservation-Lawful : (id : String) → Lawful m (release_reservation m id)
  unfolding release_reservation
  release_reservation-Lawful id =
      Guar-if (m.is_valid_object_id id)
        (Guar-bind
          (Lawful-cast (m.object_id id)
            (λ n. transition-Lawful (releasable n) _ releases (λ r h. ground arith)))
          (after_release-Lawful id))
        returns

  after_expiry-Lawful :
      (reclaimed : ℕ) (rest : Action ℕ) (d : Option Reservation)
      → Lawful m rest
      → Lawful m (after_expiry m reclaimed rest d)
  unfolding after_expiry
  after_expiry-Lawful reclaimed rest none h = returns
  after_expiry-Lawful reclaimed rest (some d) h =
      Guar-bind (incrby-Lawful (m.to_hex d.product_id) d.quantity) (λ _. h)

  sweep-Lawful : (rounds now reclaimed : ℕ) → Lawful m (sweep m rounds now reclaimed)
  unfolding sweep
  sweep-Lawful zero now reclaimed = returns
  sweep-Lawful (suc rounds) now reclaimed =
      Guar-bind (expire-Lawful now)
        (λ d. after_expiry-Lawful reclaimed _ d (sweep-Lawful rounds now (reclaimed + 1)))

  pub sweep_expired_reservations-Lawful : Lawful m (sweep_expired_reservations m)
  unfolding sweep_expired_reservations
  sweep_expired_reservations-Lawful = Lawful-read (λ t w. sweep-Lawful 100 t.now 0)
