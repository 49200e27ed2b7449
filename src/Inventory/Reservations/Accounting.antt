-- ===== src/Inventory/Reservations/Accounting.antt =====
-- The operations on reservations keep the account of every product.
use flashkart.Base.{
  ℕ, ◌+◌, ◌<◌, ◌≡◌, refl, ◌∙◌, String, Option, none, some, arith, str_eq, Bool-cases, inl, inr,
  ◌==◌,
}
use flashkart.Shared.Events.{StockEventReason}
use flashkart.Runtime.{ret, throw, Result, ok, err, Err, mongo_error}
use flashkart.Runtime.Ledger.{Safe, Safe-bind, Safe-try_catch, Safe-local, Safe-fallible}
use flashkart.Store.{
  Mongoose, Product, Action, Reservation, ReservationStatus, cast, mongo, find_one,
}
use flashkart.Inventory.Account.{stock_account, units}
use flashkart.Inventory.Commands.{
  Kept, Quiet, Refunded, Settled, Failed-redis, Failed-kept, incrby-Safe, publish-Safe,
  units-of_product,
}
use flashkart.Inventory.Purchases.{Purchased, purchase-Safe}
use flashkart.Inventory.{PurchaseResult, purchase, incrby, publish_stock_update}
use flashkart.Inventory.Reservations.Transitions.{Moved, Placed, transition-Safe, create-Safe}
use flashkart.Inventory.Reservations.{
  ReserveResult, create, cast_optional, give_back, record_hold, hold, reserve, reservation_ttl_ms,
  find_reservation, transition, confirmable, after_confirm, confirm_reservation, too_late,
  not_released, after_release,
}

module _ (m : Mongoose) (catalog : Option Product) (p : ℕ) where
  give_back-Safe :
      (id qty c c' : ℕ) (e : Err)
      → 0 < qty
      → c' ≡ c + units m catalog p (m.to_hex id) qty
      → e ≡ mongo_error
      → Safe
          (stock_account m catalog p)
          (Settled m catalog p c)
          (give_back m (m.to_hex id) qty e)
          c'
  unfolding give_back
  give_back-Safe id qty c c' e pos h k =
      Safe-bind (stock_account m catalog p) (Refunded m catalog p (m.to_hex id) qty c')
        (Settled m catalog p c) (incrby (m.to_hex id) qty) (λ _. throw e) c'
        (incrby-Safe m catalog p (m.to_hex id) qty c' pos (omega (arith, h)))
        (λ n d r. rw k (omega (arith, r, h)))
        (λ f d r. Failed-redis m catalog p c d f (omega (arith, r.0, h)) r.1)

  -- The `try` of `reserve` hands the units to the document, or fails with them in hand.
  abbrev Recorded : ℕ → ℕ → Result ReserveResult → ℕ → Type 0
  Recorded c c' (ok r) d = d ≡ c
  Recorded c c' (err e) d = (d ≡ c') × (e ≡ mongo_error)

  cast_optional-Safe :
      (Q : Result ℕ → ℕ → Type 0) (user_id : Option String) (f : Option ℕ → Action ℕ) (c : ℕ)
      → Q (err mongo_error) c
      → ((u : Option ℕ) → Safe (stock_account m catalog p) Q (f u) c)
      → Safe (stock_account m catalog p) Q (cast_optional user_id m.object_id f) c
  unfolding cast_optional
  cast_optional-Safe Q none f c bad good = good none
  cast_optional-Safe Q (some u) f c bad good = elim (Bool-cases (str_eq u "")) [
    | inl e ↦ rw e (good none)
    | inr e ↦ rw e (casts (m.object_id u))
  ]
    where
      casts : (o : Option ℕ) → Safe (stock_account m catalog p) Q (cast o (λ n. f (some n))) c
      casts none = bad
      casts (some n) = good (some n)

  record_hold-Safe :
      (id qty c c' left expires_at : ℕ) (user_id : Option String)
      → 0 < qty
      → c' ≡ c + units m catalog p (m.to_hex id) qty
      → Safe
          (stock_account m catalog p)
          (Settled m catalog p c)
          (record_hold m (m.to_hex id) qty user_id left expires_at)
          c'
  unfolding record_hold
  record_hold-Safe id qty c c' left expires_at user_id pos h =
      Safe-try_catch (stock_account m catalog p) (Recorded c c') (Settled m catalog p c) _ _ c'
        (rw (m.object_id-to_hex id) (
          Safe-bind (stock_account m catalog p) (Placed m catalog p id qty c') (Recorded c c')
            (cast_optional user_id m.object_id (λ u. create id u qty expires_at)) _ c'
            (cast_optional-Safe (Placed m catalog p id qty c') user_id _ c' (refl, refl)
              (λ u.
                create-Safe m catalog p id u qty expires_at c'
                  (omega (arith, h, units-of_product m catalog p id qty))))
            (λ n d placed.
              let kept : d ≡ c = omega (arith, h, placed, units-of_product m catalog p id qty) in
              Safe-bind (stock_account m catalog p) (Quiet m catalog p d) (Recorded c c')
                (publish_stock_update (m.to_hex id) left StockEventReason.reserve) _ d
                (publish-Safe m catalog p (m.to_hex id) left StockEventReason.reserve d)
                (λ a d' k. k ∙ kept) (λ e d' k. absurd k))
            (λ e d r. r)))
        (λ r d k. k) (λ e d r. give_back-Safe id qty c d e pos (r.0 ∙ h) r.1)

  hold-Safe :
      (id qty c c' : ℕ) (user_id : Option String) (r : PurchaseResult)
      → 0 < qty
      → Purchased m catalog p id qty c (ok r) c'
      → Safe
          (stock_account m catalog p)
          (Settled m catalog p c)
          (hold m (m.to_hex id) qty user_id r)
          c'
  unfolding hold
  hold-Safe id qty c c' user_id PurchaseResult.sold_out pos h = h
  hold-Safe id qty c c' user_id PurchaseResult.not_found pos h = h
  hold-Safe id qty c c' user_id (PurchaseResult.ok left) pos h =
      Safe-local (stock_account m catalog p) (Settled m catalog p c) _ c'
        λ t w. record_hold-Safe id qty c c' left (t.now + reservation_ttl_ms) user_id pos h

  pub reserve-Safe :
      (id qty c : ℕ) (user_id : Option String)
      → 0 < qty
      → Safe
          (stock_account m catalog p)
          (Settled m catalog p c)
          (reserve m (m.to_hex id) qty user_id)
          c
  unfolding reserve
  reserve-Safe id qty c user_id pos =
      Safe-bind (stock_account m catalog p) (Purchased m catalog p id qty c) (Settled m catalog p c)
        (purchase m (m.to_hex id) qty) (hold m (m.to_hex id) qty user_id) c
        (purchase-Safe m catalog p id qty c) (λ r c' h. hold-Safe id qty c c' user_id r pos h)
        (λ e c' h. Failed-kept m catalog p c c' e h)

  pub find_reservation-Safe :
      (reservation_id : String) (c : ℕ)
      → Safe (stock_account m catalog p) (Kept m catalog p c) (find_reservation m reservation_id) c
  unfolding find_reservation
  find_reservation-Safe reservation_id c = found (m.object_id reservation_id)
    where
      found :
          (o : Option ℕ)
          → Safe
              (stock_account m catalog p)
              (Kept m catalog p c)
              (cast o λ id. mongo λ t w. (find_one (λ r. r.id == id) w.reservations, w))
              c
      found none = refl
      found (some id) =
          Safe-fallible (stock_account m catalog p) (Kept m catalog p c) _ _ c refl
            (λ t w b. (c, (b.0, refl, λ h. h, b.1), refl))

  after_confirm-Safe :
      (reservation_id : String) (c c' : ℕ) (o : Option Reservation)
      → Moved m catalog p ReservationStatus.confirmed c (ok o) c'
      → Safe (stock_account m catalog p) (Kept m catalog p c) (after_confirm m reservation_id o) c'
  unfolding after_confirm
  after_confirm-Safe reservation_id c c' none h =
      Safe-bind (stock_account m catalog p) (Kept m catalog p c') (Kept m catalog p c)
        (find_reservation m reservation_id) (λ e. ret (too_late m e)) c'
        (find_reservation-Safe reservation_id c') (λ e d k. k ∙ h) (λ e d k. k ∙ h)
  after_confirm-Safe reservation_id c c' (some updated) h = omega (arith, h.0)

  -- Confirming moves no unit, on every way out.
  pub confirm_reservation-Safe :
      (reservation_id : String) (c : ℕ)
      → Safe
          (stock_account m catalog p)
          (Kept m catalog p c)
          (confirm_reservation m reservation_id)
          c
  unfolding confirm_reservation
  confirm_reservation-Safe reservation_id c =
      elim (Bool-cases (m.is_valid_object_id reservation_id)) [
        | inr e ↦ rw e refl
        | inl e ↦ rw e (
            Safe-local (stock_account m catalog p) (Kept m catalog p c) _ c λ t w.
              Safe-bind (stock_account m catalog p)
                (Moved m catalog p ReservationStatus.confirmed c) (Kept m catalog p c) _
                (after_confirm m reservation_id) c (flips t.now (m.object_id reservation_id))
                (λ o c' h. after_confirm-Safe reservation_id c c' o h) (λ e c' h. h))
      ]
    where
      flips :
          (now : ℕ) (o : Option ℕ)
          → Safe
              (stock_account m catalog p)
              (Moved m catalog p ReservationStatus.confirmed c)
              (cast o λ id. transition (confirmable id now) ReservationStatus.confirmed)
              c
      flips now none = refl
      flips now (some id) =
          transition-Safe m catalog p (confirmable id now) ReservationStatus.confirmed
            (λ r h. ground arith) c

  pub after_release-Safe :
      (reservation_id : String) (c c' : ℕ) (o : Option Reservation)
      → Moved m catalog p ReservationStatus.released c (ok o) c'
      → Safe
          (stock_account m catalog p)
          (Settled m catalog p c)
          (after_release m reservation_id o)
          c'
  unfolding after_release
  after_release-Safe reservation_id c c' none h =
      Safe-bind (stock_account m catalog p) (Kept m catalog p c') (Settled m catalog p c)
        (find_reservation m reservation_id) (λ e. ret (not_released m e)) c'
        (find_reservation-Safe reservation_id c') (λ e d k. k ∙ h)
        (λ e d k. Failed-kept m catalog p c d e (k ∙ h))
  after_release-Safe reservation_id c c' (some d) h =
      Safe-bind (stock_account m catalog p)
        (Refunded m catalog p (m.to_hex d.product_id) d.quantity c') (Settled m catalog p c)
        (incrby (m.to_hex d.product_id) d.quantity) _ c'
        (incrby-Safe m catalog p (m.to_hex d.product_id) d.quantity c' h.1
          (omega (arith, h.0, units-of_product m catalog p d.product_id d.quantity)))
        (λ n b r.
          Safe-bind (stock_account m catalog p) (Quiet m catalog p b) (Settled m catalog p c)
            (publish_stock_update (m.to_hex d.product_id) n StockEventReason.release) _ b
            (publish-Safe m catalog p (m.to_hex d.product_id) n StockEventReason.release b)
            (λ a b' k.
              omega (arith, k, r, h.0, units-of_product m catalog p d.product_id d.quantity))
            (λ e b' k. absurd k))
        (λ e b r. Failed-redis m catalog p c b e (omega (arith, r.0, h.0)) r.1)
