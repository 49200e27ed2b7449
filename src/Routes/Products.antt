-- ===== src/Routes/Products.antt =====
-- api/src/routes/products.ts, the bodies of `POST /:id/buy` and `POST /:id/reserve`, with
-- api/src/queues/producers.ts.
pub mod Guarantees
pub mod Accounting
pub mod Unkeyed
use flashkart.Base.{ℕ, ◌*◌, String, Option, none, some, ◌∷◌, ltb, if◌then◌else◌}
use flashkart.Shared.Events.{OrderStatus}
use flashkart.Shared.Failures
use flashkart.Shared.Replies.{Reply, pending_order, held_stock}
use flashkart.Runtime.{Tick, ret, throw, Err, app, mongo_error, try_catch, ◌>>=◌}
use flashkart.Store.{Mongoose, Product, Order, World, Action, mongo, queue, cast}
use flashkart.Inventory.{PurchaseResult, purchase, find_product}
use flashkart.Inventory.Reservations.{ReserveResult, held_until, reserve}

unfoldable pub enqueue_process_order : String → Action (Unit {0})
enqueue_process_order order_id =
    queue λ t w. (tt, record w { process_jobs = order_id ∷ w.process_jobs })

-- `product?.pricePaise ?? 0`
abbrev pub unit_price : Option Product → ℕ
unit_price none = 0
unit_price (some product) = product.price_paise

-- `OrderModel.create`, whose schema wants a quantity of 1 at least.
unfoldable pub create_order : ℕ → ℕ → ℕ → ℕ → Action ℕ
create_order user_id product_id quantity price =
    if ltb 0 quantity
    then mongo (λ t w. (t.fresh, record w { orders = doc t ∷ w.orders }))
    else throw mongo_error
  where
    doc : Tick → Order
    doc t = record {
      id = t.fresh;
      user_id = user_id;
      product_id = product_id;
      quantity = quantity;
      unit_price_paise = price;
      total_paise = price * quantity;
      status = OrderStatus.pending;
      payment_attempts = 0;
      failure_reason = none;
    }

module _ (m : Mongoose) where
  unfoldable pub place_order : String → String → ℕ → ℕ → Option Product → Action Reply
  place_order user_id id quantity left product = do
    order_id ←
        cast (m.object_id user_id)
          λ u. cast (m.object_id id) λ p. create_order u p quantity (unit_price product)
    _ ← try_catch (enqueue_process_order (m.to_hex order_id)) (λ e. ret tt)
    ret (record { status = 201; body = pending_order (m.to_hex order_id) id quantity left })

  unfoldable pub bought : String → String → ℕ → PurchaseResult → Action Reply
  bought user_id id quantity PurchaseResult.not_found =
      throw (app (Failures.not_found "product not found"))
  bought user_id id quantity PurchaseResult.sold_out = throw (app (Failures.sold_out "sold out"))
  bought user_id id quantity (PurchaseResult.ok left) = do
    product ← find_product m id
    place_order user_id id quantity left product

  unfoldable pub do_purchase : String → String → ℕ → Action Reply
  do_purchase user_id id quantity = do
    result ← purchase m id quantity
    bought user_id id quantity result

  pub held_reply : String → ℕ → ReserveResult → Action Reply
  held_reply id quantity ReserveResult.not_found =
      throw (app (Failures.not_found "product not found"))
  held_reply id quantity ReserveResult.sold_out = throw (app (Failures.sold_out "sold out"))
  held_reply id quantity (held_until reservation_id expires_at left) = ret (record {
    status = 201;
    body = held_stock (m.to_hex reservation_id) id quantity expires_at left;
  })

  pub do_reserve : String → String → ℕ → Action Reply
  do_reserve user_id id quantity = do
    result ← reserve m id quantity (some user_id)
    held_reply id quantity result
