-- ===== src/Routes/Checkout/Accounting.antt =====
-- The checkout handlers own no units once they have replied.
use flashkart.Base.{
  ℕ, ◌≡◌, ◌<◌, true, String, Option, none, some, arith, Bool-cases, inl, inr, leb→le,
}
use flashkart.Shared.Replies.{Reply}
use flashkart.Runtime.{ret}
use flashkart.Runtime.Ledger.{Safe, Safe-bind, Safe-weaken}
use flashkart.Store.{Mongoose, Product, Action}
use flashkart.Inventory.Account.{stock_account}
use flashkart.Inventory.Commands.{Spent, Settled, Settled→Spent}
use flashkart.Idempotency.{IdemResult}
use flashkart.Idempotency.Accounting.{with_idempotency-Safe}
use flashkart.Routes.Products.Accounting.{do_purchase-Safe, do_reserve-Safe}
use flashkart.Routes.Checkout.{
  valid_quantity, valid_key, keyed, validated, buy, reserve, fresh_reply, idem_key,
}

valid_quantity-pos : (quantity : ℕ) → valid_quantity quantity ≡ true → 0 < quantity
unfolding valid_quantity
valid_quantity-pos quantity h = ground (arith, leb→le 1 quantity)

module _ (m : Mongoose) (catalog : Option Product) (p : ℕ) where
  keyed-Safe :
      (key : String → String) (raw : Option String) (fn : Action Reply) (c : ℕ)
      → Safe (stock_account m catalog p) (Spent m catalog p c) fn c
      → Safe (stock_account m catalog p) (Spent m catalog p c) (keyed key raw fn) c
  unfolding keyed
  keyed-Safe key none fn c s =
      Safe-bind (stock_account m catalog p) (Spent m catalog p c) (Spent m catalog p c) fn
        (λ r. ret (fresh_reply r)) c s (λ r d k. k) (λ e d k. k)
  keyed-Safe key (some raw) fn c s = with_idempotency-Safe m catalog p (key raw) fn c s

  validated-Safe :
      (id : String) (quantity : ℕ) (raw : Option String) (handler : Action IdemResult) (c : ℕ)
      → (0 < quantity → Safe (stock_account m catalog p) (Spent m catalog p c) handler c)
      → Safe
          (stock_account m catalog p)
          (Spent m catalog p c)
          (validated m id quantity raw handler)
          c
  unfolding validated
  validated-Safe id quantity raw handler c s = elim (Bool-cases (m.is_valid_object_id id)) [
    | inr e ↦ rw e (omega arith)
    | inl e ↦ rw e (elim (Bool-cases (valid_quantity quantity)) [
      | inr f ↦ rw f (omega arith)
      | inl f ↦ rw f (elim (Bool-cases (valid_key raw)) [
        | inr g ↦ rw g (omega arith)
        | inl g ↦ rw g (s (valid_quantity-pos quantity f))
      ])
    ])
  ]

  pub buy-Safe :
      (user_id : String) (id quantity : ℕ) (raw : Option String) (c : ℕ)
      → Safe
          (stock_account m catalog p)
          (Spent m catalog p c)
          (buy m user_id (m.to_hex id) quantity raw)
          c
  unfolding buy
  buy-Safe user_id id quantity raw c = validated-Safe (m.to_hex id) quantity raw _ c λ pos.
      keyed-Safe (idem_key "buy" user_id (m.to_hex id)) raw _ c
        (do_purchase-Safe m catalog p user_id id quantity c)

  pub reserve-Safe :
      (user_id : String) (id quantity : ℕ) (raw : Option String) (c : ℕ)
      → Safe
          (stock_account m catalog p)
          (Spent m catalog p c)
          (reserve m user_id (m.to_hex id) quantity raw)
          c
  unfolding reserve
  reserve-Safe user_id id quantity raw c = validated-Safe (m.to_hex id) quantity raw _ c λ pos.
      keyed-Safe (idem_key "reserve" user_id (m.to_hex id)) raw _ c (
        Safe-weaken (stock_account m catalog p) (Settled m catalog p c) (Spent m catalog p c) _ c
          (do_reserve-Safe m catalog p user_id id quantity c pos) (Settled→Spent m catalog p c))
