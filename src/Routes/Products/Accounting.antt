-- ===== src/Routes/Products/Accounting.antt =====
-- Buying and reserving through the routes keep the account of every product.
use flashkart.Base.{
  ℕ, ◌+◌, ◌-◌, ◌<◌, ◌≤◌, ◌≡◌, refl, ◌∙◌, String, Option, none, some, arith, ltb, ltb→lt, Bool-cases,
  inl, inr,
}
use flashkart.Runtime.{ret, Result, ok, err, try_catch}
use flashkart.Runtime.Ledger.{Safe, Safe-bind, Safe-try_catch, Safe-fallible, Safe-weaken}
use flashkart.Store.{Mongoose, Product, cast}
use flashkart.Inventory.Account.{stock_account, units, of_product}
use flashkart.Inventory.Commands.{
  Spent, Kept, Quiet, Found, Settled, units-of_product, find_product-Safe,
}
use flashkart.Inventory.Commands.Neutral.{Neutral, Neutral-command}
use flashkart.Inventory.Purchases.{Purchased, purchase-Safe}
use flashkart.Inventory.Reservations.Transitions.{Placed}
use flashkart.Inventory.Reservations.Accounting.{reserve-Safe}
use flashkart.Inventory.Reservations.{ReserveResult, held_until, reserve}
use flashkart.Inventory.{PurchaseResult, purchase, find_product}
use flashkart.Routes.Products.{
  create_order, enqueue_process_order, place_order, unit_price, bought, do_purchase, held_reply,
  do_reserve,
}

module _ (m : Mongoose) (catalog : Option Product) (p : ℕ) where
  create_order-Safe :
      (user_id id quantity price c : ℕ)
      → of_product id p quantity ≤ c
      → Safe
          (stock_account m catalog p)
          (Placed m catalog p id quantity c)
          (create_order user_id id quantity price)
          c
  unfolding create_order
  create_order-Safe user_id id quantity price c owned = elim (Bool-cases (ltb 0 quantity)) [
    | inr e ↦ rw e (refl, refl)
    | inl e ↦ rw e (
        Safe-fallible (stock_account m catalog p) (Placed m catalog p id quantity c) _ _ c
          (refl, refl)
          λ t w b. (
            c - of_product id p quantity,
            (
              (b.0.0, (λ h. ground (arith, b.0.1 h, b.1 h)), b.0.2, (ltb→lt 0 quantity e, b.0.3)),
              omega arith,
              (λ h. h),
              (λ h. omega (arith, b.1 h)),
            ),
            omega arith,
          ))
  ]

  enqueue_process_order-Neutral :
      (order_id : String) → Neutral m catalog p (enqueue_process_order order_id)
  unfolding enqueue_process_order
  enqueue_process_order-Neutral order_id =
      Neutral-command m catalog p _ _ (λ t w. refl) (λ t w. refl) (λ t w. refl) (λ t w. refl)

  abbrev Ordered : ℕ → ℕ → ℕ → Result ℕ → ℕ → Type 0
  Ordered id quantity c (ok n) c' = c' + of_product id p quantity ≡ c
  Ordered id quantity c (err e) c' = c' ≡ c

  place_order-Safe :
      (user_id : String) (id quantity left c c' : ℕ) (product : Option Product)
      → c' ≡ c + units m catalog p (m.to_hex id) quantity
      → Safe
          (stock_account m catalog p)
          (Spent m catalog p c)
          (place_order m user_id (m.to_hex id) quantity left product)
          c'
  unfolding place_order
  place_order-Safe user_id id quantity left c c' product h =
      Safe-bind (stock_account m catalog p) (Ordered id quantity c') (Spent m catalog p c) _ _ c'
        (created (m.object_id user_id))
        (λ n d placed.
          Safe-bind (stock_account m catalog p) (Quiet m catalog p {A = Unit {0}} d)
            (Spent m catalog p c) (try_catch (enqueue_process_order (m.to_hex n)) (λ e. ret tt)) _ d
            (Safe-try_catch (stock_account m catalog p) (Kept m catalog p {A = Unit {0}} d)
              (Quiet m catalog p d) (enqueue_process_order (m.to_hex n)) (λ e. ret tt) d
              (enqueue_process_order-Neutral (m.to_hex n) d) (λ a b k. k) (λ e b k. k))
            (λ a b k. omega (arith, k, placed, h, units-of_product m catalog p id quantity))
            (λ e b k. absurd k))
        (λ e d k. omega (arith, k, h))
    where
      create :
          (u : ℕ)
          → Safe
              (stock_account m catalog p)
              (Ordered id quantity c')
              (cast (m.object_id (m.to_hex id)) λ q. create_order u q quantity (unit_price product))
              c'
      create u = rw (m.object_id-to_hex id) (
          Safe-weaken (stock_account m catalog p) (Placed m catalog p id quantity c')
            (Ordered id quantity c') (create_order u id quantity (unit_price product)) c'
            (create_order-Safe u id quantity (unit_price product) c'
              (omega (arith, h, units-of_product m catalog p id quantity)))
            weaker)
        where
          weaker :
              (r : Result ℕ) (d : ℕ)
              → Placed m catalog p id quantity c' r d
              → Ordered id quantity c' r d
          weaker (ok n) d k = k
          weaker (err e) d k = k.0

      created :
          (o : Option ℕ)
          → Safe
              (stock_account m catalog p)
              (Ordered id quantity c')
              (cast o λ u.
                cast
                  (m.object_id (m.to_hex id))
                  λ q. create_order u q quantity (unit_price product))
              c'
      created none = refl
      created (some u) = create u

  bought-Safe :
      (user_id : String) (id quantity c c' : ℕ) (r : PurchaseResult)
      → Purchased m catalog p id quantity c (ok r) c'
      → Safe
          (stock_account m catalog p)
          (Spent m catalog p c)
          (bought m user_id (m.to_hex id) quantity r)
          c'
  unfolding bought
  bought-Safe user_id id quantity c c' PurchaseResult.not_found h = omega (arith, h)
  bought-Safe user_id id quantity c c' PurchaseResult.sold_out h = omega (arith, h)
  bought-Safe user_id id quantity c c' (PurchaseResult.ok left) h =
      Safe-bind (stock_account m catalog p) (Found m catalog p id c') (Spent m catalog p c)
        (find_product m (m.to_hex id)) (place_order m user_id (m.to_hex id) quantity left) c'
        (find_product-Safe m catalog p (m.to_hex id) id c' (m.object_id-to_hex id))
        (λ product d k. place_order-Safe user_id id quantity left c d product (k.0 ∙ h))
        (λ e d k. omega (arith, k, h))

  pub do_purchase-Safe :
      (user_id : String) (id quantity c : ℕ)
      → Safe
          (stock_account m catalog p)
          (Spent m catalog p c)
          (do_purchase m user_id (m.to_hex id) quantity)
          c
  unfolding do_purchase
  do_purchase-Safe user_id id quantity c =
      Safe-bind (stock_account m catalog p) (Purchased m catalog p id quantity c)
        (Spent m catalog p c) (purchase m (m.to_hex id) quantity)
        (bought m user_id (m.to_hex id) quantity) c (purchase-Safe m catalog p id quantity c)
        (λ r c' h. bought-Safe user_id id quantity c c' r h) (λ e c' h. omega (arith, h))

  held_reply-Safe :
      (id quantity c c' : ℕ) (r : ReserveResult)
      → c' ≡ c
      → Safe
          (stock_account m catalog p)
          (Settled m catalog p c)
          (held_reply m (m.to_hex id) quantity r)
          c'
  unfolding held_reply
  held_reply-Safe id quantity c c' ReserveResult.not_found h = omega (arith, h)
  held_reply-Safe id quantity c c' ReserveResult.sold_out h = omega (arith, h)
  held_reply-Safe id quantity c c' (held_until r e left) h = h

  pub do_reserve-Safe :
      (user_id : String) (id quantity c : ℕ)
      → 0 < quantity
      → Safe
          (stock_account m catalog p)
          (Settled m catalog p c)
          (do_reserve m user_id (m.to_hex id) quantity)
          c
  unfolding do_reserve
  do_reserve-Safe user_id id quantity c pos =
      Safe-bind (stock_account m catalog p) (Settled m catalog p {A = ReserveResult} c)
        (Settled m catalog p c) (reserve m (m.to_hex id) quantity (some user_id))
        (held_reply m (m.to_hex id) quantity) c
        (reserve-Safe m catalog p id quantity c (some user_id) pos)
        (λ r c' h. held_reply-Safe id quantity c c' r h) (λ e c' h. h)
