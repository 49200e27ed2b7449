-- ===== src/Routes/Products/Guarantees.antt =====
-- `buy` and `reserve` of the product routes only make changes of the machine.
use flashkart.Base.{ℕ, refl, Bool-cases, inl, inr, String, Option, some, ltb, arith}
use flashkart.Runtime.{mongo_error, queue_error}
use flashkart.Runtime.Guarantee.{returns, throws, Guar-bind, Guar-try_catch}
use flashkart.Store.{Mongoose, Product}
use flashkart.Machine.{orders, aside}
use flashkart.Machine.Rules.{Lawful, Lawful-command, Lawful-cast}
use flashkart.Inventory.{PurchaseResult}
use flashkart.Inventory.Guarantees.{find_product-Lawful, purchase-Lawful}
use flashkart.Inventory.Reservations.{ReserveResult, held_until}
use flashkart.Inventory.Reservations.Guarantees.{reserve-Lawful}
use flashkart.Routes.Products.{
  enqueue_process_order, unit_price, create_order, place_order, bought, do_purchase, held_reply,
  do_reserve,
}

enqueue_process_order-Lawful :
    {m : Mongoose} → (order_id : String) → Lawful m (enqueue_process_order order_id)
unfolding enqueue_process_order
enqueue_process_order-Lawful order_id =
    Lawful-command queue_error _ (λ t w. aside _ (refl, refl, refl, refl, refl))

create_order-Lawful :
    {m : Mongoose}
    → (user_id product_id quantity price : ℕ)
    → Lawful m (create_order user_id product_id quantity price)
unfolding create_order
create_order-Lawful user_id product_id quantity price = elim (Bool-cases (ltb 0 quantity)) [
  | inl h ↦
      rw h (Lawful-command mongo_error _ (λ t w. orders _ (refl, refl, refl) (ground (arith, h))))
  | inr h ↦ rw h throws
]

module _ (m : Mongoose) where
  place_order-Lawful :
      (user_id id : String) (quantity left : ℕ) (product : Option Product)
      → Lawful m (place_order m user_id id quantity left product)
  unfolding place_order
  place_order-Lawful user_id id quantity left product =
      Guar-bind
        (Lawful-cast (m.object_id user_id) (λ u.
          Lawful-cast (m.object_id id)
            (λ p. create_order-Lawful u p quantity (unit_price product))))
        (λ o.
          Guar-bind (Guar-try_catch (enqueue_process_order-Lawful (m.to_hex o)) (λ e. returns))
            (λ _. returns))

  bought-Lawful :
      (user_id id : String) (quantity : ℕ) (r : PurchaseResult)
      → Lawful m (bought m user_id id quantity r)
  unfolding bought
  bought-Lawful user_id id quantity PurchaseResult.not_found = throws
  bought-Lawful user_id id quantity PurchaseResult.sold_out = throws
  bought-Lawful user_id id quantity (PurchaseResult.ok left) =
      Guar-bind (find_product-Lawful m id) (place_order-Lawful user_id id quantity left)

  pub do_purchase-Lawful :
      (user_id id : String) (quantity : ℕ) → Lawful m (do_purchase m user_id id quantity)
  unfolding do_purchase
  do_purchase-Lawful user_id id quantity =
      Guar-bind (purchase-Lawful m id quantity) (bought-Lawful user_id id quantity)

  held_reply-Lawful :
      (id : String) (quantity : ℕ) (r : ReserveResult) → Lawful m (held_reply m id quantity r)
  unfolding held_reply
  held_reply-Lawful id quantity ReserveResult.not_found = throws
  held_reply-Lawful id quantity ReserveResult.sold_out = throws
  held_reply-Lawful id quantity (held_until reservation_id expires_at left) = returns

  pub do_reserve-Lawful :
      (user_id id : String) (quantity : ℕ) → Lawful m (do_reserve m user_id id quantity)
  unfolding do_reserve
  do_reserve-Lawful user_id id quantity =
      Guar-bind (reserve-Lawful m id quantity (some user_id)) (held_reply-Lawful id quantity)
