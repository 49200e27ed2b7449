-- ===== src/Routes/Checkout/Guarantees.antt =====
-- The whole handlers of the product routes only make changes of the machine.
use flashkart.Base.{ℕ, String, Option, none, some}
use flashkart.Shared.Replies.{Reply}
use flashkart.Runtime.Guarantee.{returns, throws, Guar-bind, Guar-if}
use flashkart.Store.{Mongoose, Action}
use flashkart.Machine.Rules.{Lawful}
use flashkart.Idempotency.{IdemResult}
use flashkart.Idempotency.Guarantees.{with_idempotency-Lawful}
use flashkart.Routes.Products.Guarantees.{do_purchase-Lawful, do_reserve-Lawful}
use flashkart.Routes.Checkout.{valid_quantity, valid_key, keyed, validated, buy, reserve}

keyed-Lawful :
    {m : Mongoose}
    → (key : String → String) (raw_key : Option String) (fn : Action Reply) → Lawful m fn
    → Lawful m (keyed key raw_key fn)
unfolding keyed
keyed-Lawful key none fn h = Guar-bind h (λ r. returns)
keyed-Lawful key (some raw) fn h = with_idempotency-Lawful (key raw) fn h

module _ (m : Mongoose) where
  validated-Lawful :
      (id : String) (quantity : ℕ) (raw_key : Option String) (handler : Action IdemResult)
      → Lawful m handler
      → Lawful m (validated m id quantity raw_key handler)
  unfolding validated
  validated-Lawful id quantity raw_key handler h =
      Guar-if (m.is_valid_object_id id)
        (Guar-if (valid_quantity quantity) (Guar-if (valid_key raw_key) h throws) throws) throws

  pub buy-Lawful :
      (user_id id : String) (quantity : ℕ) (raw_key : Option String)
      → Lawful m (buy m user_id id quantity raw_key)
  unfolding buy
  buy-Lawful user_id id quantity raw_key =
      validated-Lawful id quantity raw_key _
        (keyed-Lawful _ raw_key _ (do_purchase-Lawful m user_id id quantity))

  pub reserve-Lawful :
      (user_id id : String) (quantity : ℕ) (raw_key : Option String)
      → Lawful m (reserve m user_id id quantity raw_key)
  unfolding reserve
  reserve-Lawful user_id id quantity raw_key =
      validated-Lawful id quantity raw_key _
        (keyed-Lawful _ raw_key _ (do_reserve-Lawful m user_id id quantity))
