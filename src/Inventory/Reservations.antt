-- ===== src/Inventory/Reservations.antt =====
-- api/src/inventory/inventory.ts, the reservations: `reserve`, `confirmReservation`,
-- `releaseReservation` and `sweepExpiredReservations`.
pub mod Guarantees
pub mod Transitions
pub mod Accounting
pub mod Sweeping
use flashkart.Base.{
  ℕ, zero, suc, ◌+◌, str_eq, Bool, true, false, String, Option, none, some, List, ◌∷◌, ◌==◌, ltb,
  leb, if◌then◌else◌, ◌&&◌,
}
use flashkart.Shared.Events.{StockEventReason}
use flashkart.Runtime.{Tick, ret, throw, Err, mongo_error, try_catch, ◌>>=◌, ◌>>◌}
use flashkart.Store.{
  Mongoose, World, Action, Reservation, ReservationStatus, held, is_held, mongo, cast, date_now,
  find_one_and_update, update_one, find_one,
}
use flashkart.Inventory.{PurchaseResult, purchase, incrby, publish_stock_update}

abbrev pub reservation_ttl_ms : ℕ
reservation_ttl_ms = 90000

pub data ReserveResult : Type 0 where
  held_until : ℕ → ℕ → ℕ → ReserveResult
  sold_out : ReserveResult
  not_found : ReserveResult

pub data ConfirmResult : Type 0 where
  confirmed : ℕ → ℕ → ConfirmResult
  expired : ConfirmResult
  not_found : ConfirmResult

pub data ReleaseResult : Type 0 where
  released : ℕ → ℕ → ReleaseResult
  not_holdable : ReleaseResult
  not_found : ReleaseResult

abbrev pub set_status : ReservationStatus → Reservation → Reservation
set_status s r = record r { status = s }

-- The predicates of the updates.
abbrev pub confirmable : ℕ → ℕ → Reservation → Bool
confirmable id now r = r.id == id && (is_held r.status && ltb now r.expires_at)

abbrev pub releasable : ℕ → Reservation → Bool
releasable id r = r.id == id && is_held r.status

abbrev pub overdue : ℕ → Reservation → Bool
overdue now r = is_held r.status && leb r.expires_at now

-- `findOneAndUpdate(p, {$set: {status}}, {new: true})`, one atomic command of Mongo.
pub transition : (Reservation → Bool) → ReservationStatus → Action (Option Reservation)
transition p s = mongo λ t w. (
  find_one_and_update p (set_status s) w.reservations,
  record w { reservations = update_one p (set_status s) w.reservations },
)

-- `create`, whose schema wants a quantity of 1 at least.
pub create : ℕ → Option ℕ → ℕ → ℕ → Action ℕ
create product_id user_id qty expires_at =
    if ltb 0 qty
    then mongo (λ t w. (t.fresh, record w { reservations = doc t ∷ w.reservations }))
    else throw mongo_error
  where
    doc : Tick → Reservation
    doc t = record {
      id = t.fresh;
      product_id = product_id;
      user_id = user_id;
      quantity = qty;
      status = held;
      expires_at = expires_at;
    }

-- `userId ? new ObjectId(userId) : undefined`; an empty text is falsy.
pub cast_optional : Option String → (String → Option ℕ) → (Option ℕ → Action ℕ) → Action ℕ
cast_optional none object_id f = f none
cast_optional (some user_id) object_id f =
    if str_eq user_id "" then f none else cast (object_id user_id) (λ u. f (some u))

module _ (m : Mongoose) where
  -- The `catch` of `reserve`: the stock goes back, and the error goes on.
  pub give_back : String → ℕ → Err → Action ReserveResult
  give_back product_id qty e = do _ ← incrby product_id qty; throw e

  pub record_hold : String → ℕ → Option String → ℕ → ℕ → Action ReserveResult
  unfolding create cast_optional
  record_hold product_id qty user_id left expires_at =
      try_catch
        (do
          id ←
              cast (m.object_id product_id)
                λ p. cast_optional user_id m.object_id λ u. create p u qty expires_at
          _ ← publish_stock_update product_id left StockEventReason.reserve
          ret (held_until id expires_at left))
        (give_back product_id qty)

  pub hold : String → ℕ → Option String → PurchaseResult → Action ReserveResult
  hold product_id qty user_id PurchaseResult.sold_out = ret ReserveResult.sold_out
  hold product_id qty user_id PurchaseResult.not_found = ret ReserveResult.not_found
  hold product_id qty user_id (PurchaseResult.ok left) = do
    now ← date_now
    record_hold product_id qty user_id left (now + reservation_ttl_ms)

  pub reserve : String → ℕ → Option String → Action ReserveResult
  reserve product_id qty user_id = do
    purchased ← purchase m product_id qty
    hold product_id qty user_id purchased

  unfoldable pub find_reservation : String → Action (Option Reservation)
  find_reservation reservation_id =
      cast (m.object_id reservation_id)
        λ id. mongo λ t w. (find_one (λ r. r.id == id) w.reservations, w)

  too_late : Option Reservation → ConfirmResult
  too_late none = ConfirmResult.not_found
  too_late (some existing) = ConfirmResult.expired

  after_confirm : String → Option Reservation → Action ConfirmResult
  after_confirm reservation_id (some updated) =
      ret (ConfirmResult.confirmed updated.product_id updated.quantity)
  after_confirm reservation_id none = do
    existing ← find_reservation reservation_id
    ret (too_late existing)

  pub confirm_reservation : String → Action ConfirmResult
  confirm_reservation reservation_id =
      if m.is_valid_object_id reservation_id
      then (do
        now ← date_now
        updated ←
            cast (m.object_id reservation_id)
              λ id. transition (confirmable id now) ReservationStatus.confirmed
        after_confirm reservation_id updated)
      else ret ConfirmResult.not_found

  not_released : Option Reservation → ReleaseResult
  not_released none = ReleaseResult.not_found
  not_released (some existing) = ReleaseResult.not_holdable

  pub after_release : String → Option Reservation → Action ReleaseResult
  after_release reservation_id none = do
    existing ← find_reservation reservation_id
    ret (not_released existing)
  after_release reservation_id (some updated) = do
    left ← incrby (m.to_hex updated.product_id) updated.quantity
    _ ← publish_stock_update (m.to_hex updated.product_id) left StockEventReason.release
    ret (ReleaseResult.released updated.product_id updated.quantity)

  pub release_reservation : String → Action ReleaseResult
  release_reservation reservation_id =
      if m.is_valid_object_id reservation_id
      then (do
        updated ←
            cast (m.object_id reservation_id)
              λ id. transition (releasable id) ReservationStatus.released
        after_release reservation_id updated)
      else ret ReleaseResult.not_found

  -- One round, from the hold that was expired, and the rounds to come.
  pub after_expiry : ℕ → Action ℕ → Option Reservation → Action ℕ
  after_expiry reclaimed rest none = ret reclaimed
  after_expiry reclaimed rest (some d) = do _ ← incrby (m.to_hex d.product_id) d.quantity; rest

  -- The loop, with the rounds left, the time at which it began, and the count so far.
  pub sweep : ℕ → ℕ → ℕ → Action ℕ
  sweep zero now reclaimed = ret reclaimed
  sweep (suc rounds) now reclaimed =
      transition (overdue now) ReservationStatus.expired
      >>= after_expiry reclaimed (sweep rounds now (reclaimed + 1))

  pub sweep_expired_reservations : Action ℕ
  sweep_expired_reservations = do now ← date_now; sweep 100 now 0
