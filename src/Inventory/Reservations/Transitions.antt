-- ===== src/Inventory/Reservations/Transitions.antt =====
-- A change of a reservation's status, and a new reservation, keep the account of every product.
use flashkart.Base.{
  ℕ, ◌+◌, ◌<◌, ◌≤◌, ◌≡◌, refl, Bool, true, Option, none, some, List, arith, sum_by, All, ltb,
  ltb→lt, ◌-◌, if◌then◌else◌, Bool-cases, inl, inr,
}
use flashkart.Runtime.{Result, ok, err, mongo_error}
use flashkart.Runtime.Ledger.{Safe, Safe-fallible, Before, After}
use flashkart.Store.{
  Mongoose, Product, World, Reservation, ReservationStatus, is_held, find_one_and_update,
  update_one,
}
use flashkart.Store.Updates.{
  update_one-none, sum-update_one, All-update_one, find_one_and_update-found,
}
use flashkart.Inventory.Account.{stock_account, of_product, reservation_keeps, reservation_units}
use flashkart.Inventory.Reservations.{transition, set_status, create}

module _ (m : Mongoose) (catalog : Option Product) (p : ℕ) where
  -- The units that a document gives up when it takes the status.
  abbrev pub freed : ReservationStatus → Reservation → ℕ
  freed s d = if reservation_keeps s then 0 else of_product d.product_id p d.quantity

  abbrev pub Moved : ReservationStatus → ℕ → Result (Option Reservation) → ℕ → Type 0
  Moved s c (ok none) c' = c' ≡ c
  Moved s c (ok (some d)) c' = (c' ≡ c + freed s d) × (0 < d.quantity)
  Moved s c (err e) c' = c' ≡ c

  abbrev Positive : Reservation → Type 0
  Positive r = 0 < r.quantity

  abbrev freed_of : ReservationStatus → Option Reservation → ℕ
  freed_of s none = 0
  freed_of s (some d) = freed s d

  module _ (q : Reservation → Bool) (s : ReservationStatus)
      (only_held : (r : Reservation) → q r ≡ true → is_held r.status ≡ true) where
    drop :
        (r : Reservation)
        → q r ≡ true
        → reservation_units p r ≡ reservation_units p (set_status s r) + freed s (set_status s r)
    unfolding is_held
    drop r h = ground (arith, only_held r h)

    moved_sum :
        (xs : List Reservation) (o : Option Reservation)
        → find_one_and_update q (set_status s) xs ≡ o
        → sum_by (reservation_units p) xs
          ≡ sum_by (reservation_units p) (update_one q (set_status s) xs) + freed_of s o
    moved_sum xs none e = rw (update_one-none q (set_status s) xs e) (omega arith)
    moved_sum xs (some d) e =
        sum-update_one q (set_status s) (reservation_units p) (freed s) drop xs d e

    Moved-found :
        (xs : List Reservation) (o : Option Reservation) (c : ℕ)
        → find_one_and_update q (set_status s) xs ≡ o
        → All Positive xs
        → Moved s c (ok o) (c + freed_of s o)
    Moved-found xs none c e a = omega arith
    Moved-found xs (some d) c e a =
        (refl, find_one_and_update-found q (set_status s) xs d e Positive (λ x _ h. h) a)

    moved_After :
        (c : ℕ) (w : World) (o : Option Reservation)
        → find_one_and_update q (set_status s) w.reservations ≡ o
        → Before (stock_account m catalog p) c w
        → After
            (stock_account m catalog p)
            c
            w
            (c + freed_of s o)
            (record w { reservations = update_one q (set_status s) w.reservations })
    moved_After c w o e b =
        let sum = moved_sum w.reservations o e in
        (
          (
            b.0.0,
            (λ h. omega (arith, b.0.1 h, sum)),
            All-update_one q (set_status s) Positive (λ x h. h) w.reservations b.0.2,
            b.0.3,
          ),
          omega (arith, sum),
          (λ h. h),
          (λ h. omega (arith, b.1 h, b.0.1 h, sum)),
        )

    pub transition-Safe : (c : ℕ) → Safe (stock_account m catalog p) (Moved s c) (transition q s) c
    unfolding transition
    transition-Safe c =
        Safe-fallible (stock_account m catalog p) (Moved s c) _ _ c refl
          λ t w b. (_, moved_After c w _ refl b, Moved-found w.reservations _ c refl b.0.2)

  abbrev pub Placed : ℕ → ℕ → ℕ → Result ℕ → ℕ → Type 0
  Placed id qty c (ok n) c' = c' + of_product id p qty ≡ c
  Placed id qty c (err e) c' = (c' ≡ c) × (e ≡ mongo_error)

  -- A new hold takes over the units that its creator owned.
  pub create-Safe :
      (id : ℕ) (user_id : Option ℕ) (qty expires_at c : ℕ)
      → of_product id p qty ≤ c
      → Safe (stock_account m catalog p) (Placed id qty c) (create id user_id qty expires_at) c
  unfolding create
  create-Safe id user_id qty expires_at c owned = elim (Bool-cases (ltb 0 qty)) [
    | inr e ↦ rw e (refl, refl)
    | inl e ↦ rw e (
        Safe-fallible (stock_account m catalog p) (Placed id qty c) _ _ c (refl, refl)
          λ t w b. (
            c - of_product id p qty,
            (
              (b.0.0, (λ h. ground (arith, b.0.1 h, b.1 h)), (ltb→lt 0 qty e, b.0.2), b.0.3),
              omega arith,
              (λ h. h),
              (λ h. omega (arith, b.1 h)),
            ),
            omega arith,
          ))
  ]
