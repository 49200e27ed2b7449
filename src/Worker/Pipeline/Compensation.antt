-- ===== src/Worker/Pipeline/Compensation.antt =====
-- The compensation of a failed payment returns the units of the order that it fails.
use flashkart.Base.{ℕ, ◌≡◌, refl, ◌∙◌, String, Option, none, some, arith, Bool-cases, inl, inr, ltb}
use flashkart.Shared.Events.{pending, StockEventReason}
use flashkart.Runtime.{ret, ok, err, Err}
use flashkart.Runtime.Ledger.{Safe, Safe-bind, Safe-try_catch}
use flashkart.Store.{Mongoose, Product, Order, cast}
use flashkart.Inventory.Account.{stock_account, of_product}
use flashkart.Inventory.Commands.{
  Settled, Logged, Settled→Logged, Refunded, Posted, Failed-redis, Failed-kept, emit-Safe,
  incrby-Safe, units-of_product,
}
use flashkart.Inventory.{incrby}
use flashkart.Worker.Sweeper.{publish_stock}
use flashkart.Worker.Pipeline.Accounting.{Updated, fail_order-Safe}
use flashkart.Worker.Pipeline.Handlers.{publish_failed-Safe}
use flashkart.Worker.Pipeline.{
  order_transition, set_failed, refund, compensate_payment, on_failed, job_attempts,
}

module _ (m : Mongoose) (catalog : Option Product) (p : ℕ) where
  abbrev order_freed : Order → ℕ
  order_freed o = of_product o.product_id p o.quantity

  refund-Safe :
      (order_id : String) (c c' : ℕ) (o : Option Order)
      → Updated m catalog p order_freed c (ok o) c'
      → Safe (stock_account m catalog p) (Settled m catalog p c) (refund m order_id o) c'
  unfolding refund publish_stock
  refund-Safe order_id c c' none h = h
  refund-Safe order_id c c' (some o) h =
      Safe-bind (stock_account m catalog p)
        (Refunded m catalog p (m.to_hex o.product_id) o.quantity c') (Settled m catalog p c)
        (incrby (m.to_hex o.product_id) o.quantity) _ c'
        (incrby-Safe m catalog p (m.to_hex o.product_id) o.quantity c' h.1
          (omega (arith, h.0, units-of_product m catalog p o.product_id o.quantity)))
        (λ n b r.
          let back : b ≡ c =
            omega (arith, r, h.0, units-of_product m catalog p o.product_id o.quantity) in
          Safe-bind (stock_account m catalog p) (Posted m catalog p b) (Settled m catalog p c) _ _ b
            (emit-Safe m catalog p (m.to_hex o.product_id) n StockEventReason.release b)
            (λ a d k. publish_failed-Safe m catalog p order_id o.user_id c d (k ∙ back))
            (λ e d k. Failed-redis m catalog p c d e (omega (arith, k.0, back)) k.1))
        (λ e b r. Failed-redis m catalog p c b e (omega (arith, r.0, h.0)) r.1)

  pub compensate_payment-Safe :
      (order_id : String) (reason : Err) (c : ℕ)
      → Safe
          (stock_account m catalog p)
          (Settled m catalog p c)
          (compensate_payment m order_id reason)
          c
  unfolding compensate_payment
  compensate_payment-Safe order_id reason c =
      Safe-bind (stock_account m catalog p) (Updated m catalog p order_freed c)
        (Settled m catalog p c) _ (refund m order_id) c (flips (m.object_id order_id))
        (λ o c' h. refund-Safe order_id c c' o h) (λ e c' h. Failed-kept m catalog p c c' e h)
    where
      flips :
          (o : Option ℕ)
          → Safe
              (stock_account m catalog p)
              (Updated m catalog p order_freed c)
              (cast o λ id. order_transition id pending (set_failed reason))
              c
      flips none = refl
      flips (some id) = fail_order-Safe m catalog p id reason c

  pub on_failed-Safe :
      (attempts_made : ℕ) (order_id : String) (reason : Err) (c : ℕ)
      → Safe
          (stock_account m catalog p)
          (Logged m catalog p c)
          (on_failed m attempts_made order_id reason)
          c
  unfolding on_failed
  on_failed-Safe attempts_made order_id reason c =
      elim (Bool-cases (ltb attempts_made job_attempts)) [
        | inl e ↦ rw e (omega arith)
        | inr e ↦ rw e (
            Safe-try_catch (stock_account m catalog p) (Settled m catalog p {A = Unit {0}} c)
              (Logged m catalog p c) (compensate_payment m order_id reason) (λ e. ret tt) c
              (compensate_payment-Safe order_id reason c) (λ a b k. omega (arith, k))
              (λ e b k. Settled→Logged m catalog p ℕ c (err e) b k))
      ]
