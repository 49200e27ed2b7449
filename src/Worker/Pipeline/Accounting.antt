-- ===== src/Worker/Pipeline/Accounting.antt =====
-- The updates of an order keep the account of every product.
use flashkart.Base.{
  ℕ, ◌+◌, ◌<◌, ◌≡◌, refl, true, Option, none, some, List, arith, sum_by, All, ◌==◌,
}
use flashkart.Shared.Events.{OrderStatus, pending, order_status_eq→≡}
use flashkart.Runtime.{Result, ok, err, Err}
use flashkart.Runtime.Ledger.{Safe, Safe-fallible, Before, After}
use flashkart.Store.{Mongoose, Product, World, Order, find_one_and_update, update_one}
use flashkart.Store.Updates.{
  update_one-none, sum-update_one, All-update_one, find_one_and_update-found, sum-update_one_same,
}
use flashkart.Inventory.Account.{stock_account, of_product, order_units, order_keeps}
use flashkart.Inventory.Commands.{Kept}
use flashkart.Worker.Pipeline.{
  order_transition, save_attempts, in_status, set_order_status, set_failed, set_attempts,
}

module _ (m : Mongoose) (catalog : Option Product) (p : ℕ) where
  abbrev Positive : Order → Type 0
  Positive o = 0 < o.quantity

  abbrev found_units : (Order → ℕ) → Option Order → ℕ
  found_units g none = 0
  found_units g (some o) = g o

  abbrev pub Updated : (Order → ℕ) → ℕ → Result (Option Order) → ℕ → Type 0
  Updated g c (ok none) c' = c' ≡ c
  Updated g c (ok (some o)) c' = (c' ≡ c + g o) × (0 < o.quantity)
  Updated g c (err e) c' = c' ≡ c

  -- `g` is what an order gives up at the update.
  module _ (id : ℕ) (s : OrderStatus) (u : Order → Order) (g : Order → ℕ)
      (drop : (o : Order)
        → in_status id s o ≡ true
        → order_units p o ≡ order_units p (u o) + g (u o))
      (same : (o : Order) → (u o).quantity ≡ o.quantity) where
    positive : (o : Order) → Positive o → Positive (u o)
    positive o h = omega (arith, same o)

    updated_sum :
        (xs : List Order) (o : Option Order)
        → find_one_and_update (in_status id s) u xs ≡ o
        → sum_by (order_units p) xs
          ≡ sum_by (order_units p) (update_one (in_status id s) u xs) + found_units g o
    updated_sum xs none e = rw (update_one-none (in_status id s) u xs e) (omega arith)
    updated_sum xs (some o) e = sum-update_one (in_status id s) u (order_units p) g drop xs o e

    Updated-found :
        (xs : List Order) (o : Option Order) (c : ℕ)
        → find_one_and_update (in_status id s) u xs ≡ o
        → All Positive xs
        → Updated g c (ok o) (c + found_units g o)
    Updated-found xs none c e a = omega arith
    Updated-found xs (some o) c e a = (
      refl,
      find_one_and_update-found (in_status id s) u xs o e Positive (λ x _ h. positive x h) a,
    )

    updated_After :
        (c : ℕ) (w : World) (o : Option Order)
        → find_one_and_update (in_status id s) u w.orders ≡ o
        → Before (stock_account m catalog p) c w
        → After
            (stock_account m catalog p)
            c
            w
            (c + found_units g o)
            (record w { orders = update_one (in_status id s) u w.orders })
    updated_After c w o e b =
        let total = updated_sum w.orders o e in
        (
          (
            b.0.0,
            (λ h. omega (arith, b.0.1 h, total)),
            b.0.2,
            All-update_one (in_status id s) u Positive positive w.orders b.0.3,
          ),
          omega (arith, total),
          (λ h. h),
          (λ h. omega (arith, b.1 h, b.0.1 h, total)),
        )

    order_transition-Safe :
        (c : ℕ) → Safe (stock_account m catalog p) (Updated g c) (order_transition id s u) c
    unfolding order_transition
    order_transition-Safe c =
        Safe-fallible (stock_account m catalog p) (Updated g c) _ _ c refl
          λ t w b. (_, updated_After c w _ refl b, Updated-found w.orders _ c refl b.0.3)

  -- A step forward keeps the units with the order.
  pub advance_order-Safe :
      (id : ℕ) (before after : OrderStatus) (c : ℕ)
      → order_keeps before ≡ true
      → order_keeps after ≡ true
      → Safe
          (stock_account m catalog p)
          (Updated (λ o. 0) c)
          (order_transition id before (set_order_status after))
          c
  advance_order-Safe id before after c kb ka =
      order_transition-Safe id before (set_order_status after) (λ o. 0) kept (λ o. refl) c
    where
      kept :
          (o : Order)
          → in_status id before o ≡ true
          → order_units p o ≡ order_units p (set_order_status after o) + 0
      kept o h = ground (arith, order_status_eq→≡ o.status before)

  -- A failure hands them over to the compensation.
  pub fail_order-Safe :
      (id : ℕ) (reason : Err) (c : ℕ)
      → Safe
          (stock_account m catalog p)
          (Updated (λ o. of_product o.product_id p o.quantity) c)
          (order_transition id pending (set_failed reason))
          c
  fail_order-Safe id reason c =
      order_transition-Safe id pending (set_failed reason)
        (λ o. of_product o.product_id p o.quantity) given (λ o. refl) c
    where
      given :
          (o : Order)
          → in_status id pending o ≡ true
          → order_units p o
            ≡ order_units p (set_failed reason o) + of_product o.product_id p o.quantity
      given o h = ground (arith, order_status_eq→≡ o.status pending)

  pub save_attempts-Safe :
      (id n c : ℕ) → Safe (stock_account m catalog p) (Kept m catalog p c) (save_attempts id n) c
  unfolding save_attempts
  save_attempts-Safe id n c =
      Safe-fallible (stock_account m catalog p) (Kept m catalog p c) _ _ c refl λ t w b.
        let total =
          sum-update_one_same (λ o. o.id == id) (set_attempts n) (order_units p) (λ o. refl)
            w.orders in
        (
          c,
          (
            (
              b.0.0,
              (λ h. omega (arith, b.0.1 h, total)),
              b.0.2,
              All-update_one (λ o. o.id == id) (set_attempts n) Positive (λ o h. h) w.orders b.0.3,
            ),
            omega (arith, total),
            (λ h. h),
            b.1,
          ),
          refl,
        )
