-- ===== src/Routes/Products/Unkeyed.antt =====
-- Functions that leave the idempotency keys alone: what the checkout handlers wrap.
use flashkart.Base.{ℕ, ◌≡◌, refl, Bool, true, false, String, Option, none, some, ltb}
use flashkart.Shared.Events.{StockEventReason}
use flashkart.Runtime.{Tick, Err, redis_error, mongo_error, queue_error, fallible}
use flashkart.Runtime.Within.{
  Within, done, stops, Within-bind, Within-try_catch, Within-if, Within-fallible,
}
use flashkart.Store.{Mongoose, Product, World, Action, cast}
use flashkart.Inventory.{
  BuyReply, remaining, short, unprimed, buy_stock, write_stock, claim, set_nx, emit_stock,
  publish_stock_update, PurchaseResult, find_product, prime, prime_from_mongo, settle, retry,
  after_first, purchase,
}
use flashkart.Routes.Products.{
  enqueue_process_order, unit_price, create_order, place_order, bought, do_purchase,
}

abbrev pub SameKeys : World → World → Type 0
SameKeys w w' = w'.idem ≡ w.idem

abbrev pub Unkeyed : {A : Type 0} → Action A → Type 0
Unkeyed f = Within SameKeys f

command-Unkeyed :
    {A : Type 0} (e : Err) (f : Tick → World → A × World)
    → ((t : Tick) (w : World) → SameKeys w (f t w).1)
    → Unkeyed (fallible e f)
command-Unkeyed e f h = Within-fallible e f (λ w. refl) h

cast-Unkeyed :
    {A : Type 0} {f : ℕ → Action A} (o : Option ℕ) → ((n : ℕ) → Unkeyed (f n)) → Unkeyed (cast o f)
cast-Unkeyed none h = stops
cast-Unkeyed (some n) h = h n

write_stock-SameKeys : (w : World) (key : String) (o : Option ℕ) → SameKeys w (write_stock w key o)
write_stock-SameKeys w key none = refl
write_stock-SameKeys w key (some n) = refl

buy_stock-Unkeyed : (key : String) (qty : ℕ) → Unkeyed (buy_stock key qty)
unfolding buy_stock
buy_stock-Unkeyed key qty = command-Unkeyed redis_error _ (λ t w. write_stock-SameKeys w key _)

claim-SameKeys : (key : String) (n : ℕ) (o : Option ℕ) (w : World) → SameKeys w (claim key n o w).1
unfolding claim
claim-SameKeys key n none w = refl
claim-SameKeys key n (some old) w = refl

set_nx-Unkeyed : (key : String) (n : ℕ) → Unkeyed (set_nx key n)
unfolding set_nx
set_nx-Unkeyed key n = command-Unkeyed redis_error _ (λ t w. claim-SameKeys key n _ w)

publish-Unkeyed :
    (id : String) (left : ℕ) (reason : StockEventReason)
    → Unkeyed (publish_stock_update id left reason)
unfolding publish_stock_update emit_stock
publish-Unkeyed id left reason =
    Within-try_catch (command-Unkeyed redis_error _ (λ t w. refl)) (λ e. done)

enqueue-Unkeyed : (order_id : String) → Unkeyed (enqueue_process_order order_id)
unfolding enqueue_process_order
enqueue-Unkeyed order_id = command-Unkeyed queue_error _ (λ t w. refl)

create_order-Unkeyed : (u p quantity price : ℕ) → Unkeyed (create_order u p quantity price)
unfolding create_order
create_order-Unkeyed u p quantity price =
    Within-if (ltb 0 quantity) (command-Unkeyed mongo_error _ (λ t w. refl)) stops

module _ (m : Mongoose) where
  find_product-Unkeyed : (id : String) → Unkeyed (find_product m id)
  unfolding find_product
  find_product-Unkeyed id =
      cast-Unkeyed (m.object_id id) (λ n. command-Unkeyed mongo_error _ (λ t w. refl))

  prime-Unkeyed : (id : String) (o : Option Product) → Unkeyed (prime m id o)
  unfolding prime
  prime-Unkeyed id none = done
  prime-Unkeyed id (some product) =
      Within-if product.active (Within-bind (set_nx-Unkeyed id product.stock) (λ _. done)) done

  settle-Unkeyed : (id : String) (r : BuyReply) → Unkeyed (settle m id r)
  unfolding settle
  settle-Unkeyed id unprimed = done
  settle-Unkeyed id short = done
  settle-Unkeyed id (remaining n) =
      Within-bind (publish-Unkeyed id n StockEventReason.purchase) (λ _. done)

  retry-Unkeyed : (id : String) (qty : ℕ) (exists : Bool) → Unkeyed (retry m id qty exists)
  unfolding retry
  retry-Unkeyed id qty false = done
  retry-Unkeyed id qty true = Within-bind (buy_stock-Unkeyed id qty) (settle-Unkeyed id)

  after_first-Unkeyed : (id : String) (qty : ℕ) (r : BuyReply) → Unkeyed (after_first m id qty r)
  unfolding after_first prime_from_mongo
  after_first-Unkeyed id qty unprimed =
      Within-bind (Within-bind (find_product-Unkeyed id) (prime-Unkeyed id)) (retry-Unkeyed id qty)
  after_first-Unkeyed id qty short = settle-Unkeyed id short
  after_first-Unkeyed id qty (remaining n) = settle-Unkeyed id (remaining n)

  purchase-Unkeyed : (id : String) (qty : ℕ) → Unkeyed (purchase m id qty)
  unfolding purchase
  purchase-Unkeyed id qty = Within-bind (buy_stock-Unkeyed id qty) (after_first-Unkeyed id qty)

  place_order-Unkeyed :
      (user_id id : String) (quantity left : ℕ) (product : Option Product)
      → Unkeyed (place_order m user_id id quantity left product)
  unfolding place_order
  place_order-Unkeyed user_id id quantity left product =
      Within-bind
        (cast-Unkeyed (m.object_id user_id) (λ u.
          cast-Unkeyed (m.object_id id)
            (λ p. create_order-Unkeyed u p quantity (unit_price product))))
        (λ o. Within-bind (Within-try_catch (enqueue-Unkeyed (m.to_hex o)) (λ e. done)) (λ _. done))

  bought-Unkeyed :
      (user_id id : String) (quantity : ℕ) (r : PurchaseResult)
      → Unkeyed (bought m user_id id quantity r)
  unfolding bought
  bought-Unkeyed user_id id quantity PurchaseResult.not_found = stops
  bought-Unkeyed user_id id quantity PurchaseResult.sold_out = stops
  bought-Unkeyed user_id id quantity (PurchaseResult.ok left) =
      Within-bind (find_product-Unkeyed id) (place_order-Unkeyed user_id id quantity left)

  pub do_purchase-Unkeyed :
      (user_id id : String) (quantity : ℕ) → Unkeyed (do_purchase m user_id id quantity)
  unfolding do_purchase
  do_purchase-Unkeyed user_id id quantity =
      Within-bind (purchase-Unkeyed id quantity) (bought-Unkeyed user_id id quantity)
