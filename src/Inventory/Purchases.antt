-- ===== src/Inventory/Purchases.antt =====
-- `purchase` and `reserve` keep the account of every product. The id is the one that mongoose
-- prints for a product, so that it names the product's only key.
use flashkart.Base.{
  ℕ, ◌+◌, ◌≡◌, refl, ap, ◌∙◌, Bool, true, false, Option, none, some, str_eq, arith, eq_iff,
  if◌then◌else◌,
}
use flashkart.Runtime.{ret, ◌>>=◌, Result, ok, err}
use flashkart.Runtime.Ledger.{Safe, Safe-bind}
use flashkart.Store.{Mongoose, Product}
use flashkart.Inventory.Account.{stock_account, units, catalog_stock}
use flashkart.Inventory.Commands.{
  Bought, Kept, Quiet, Found, taken, buy_stock-Safe, set_nx-Safe, publish-Safe, find_product-Safe,
  to_hex-injective,
}
use flashkart.Inventory.{
  BuyReply, remaining, short, unprimed, PurchaseResult, buy_stock, set_nx, publish_stock_update,
  find_product, prime, prime_from_mongo, settle, retry, after_first, purchase,
}

module _ (m : Mongoose) (catalog : Option Product) (p : ℕ) where
  pub str_eq-to_hex : (id : ℕ) → str_eq (m.to_hex id) (m.to_hex p) ≡ true → id ≡ p
  str_eq-to_hex id h = to_hex-injective m id p ((eq_iff (m.to_hex id) (m.to_hex p)).0 h)

  -- A successful purchase leaves its units with the caller; any other result, none.
  abbrev pub Purchased : ℕ → ℕ → ℕ → Result PurchaseResult → ℕ → Type 0
  Purchased id qty c (ok (PurchaseResult.ok n)) c' = c' ≡ c + units m catalog p (m.to_hex id) qty
  Purchased id qty c (ok PurchaseResult.sold_out) c' = c' ≡ c
  Purchased id qty c (ok PurchaseResult.not_found) c' = c' ≡ c
  Purchased id qty c (err e) c' = c' ≡ c

  prime-Safe :
      (id c : ℕ) (product : Option Product)
      → (id ≡ p → product ≡ catalog)
      → Safe (stock_account m catalog p) (Kept m catalog p c) (prime m (m.to_hex id) product) c
  unfolding prime
  prime-Safe id c none same = refl
  prime-Safe id c (some product) same = choose product.active
    where
      stocked : str_eq (m.to_hex id) (m.to_hex p) ≡ true → product.stock ≡ catalog_stock catalog
      stocked h = ap catalog_stock (same (str_eq-to_hex id h))

      choose :
          (b : Bool)
          → Safe
              (stock_account m catalog p)
              (Kept m catalog p c)
              (if b then (set_nx (m.to_hex id) product.stock >>= λ _. ret true) else ret false)
              c
      choose true =
          Safe-bind (stock_account m catalog p) (Kept m catalog p c) (Kept m catalog p c)
            (set_nx (m.to_hex id) product.stock) (λ _. ret true) c
            (set_nx-Safe m catalog p (m.to_hex id) product.stock c stocked) (λ a c' h. h)
            (λ e c' h. h)
      choose false = refl

  prime_from_mongo-Safe :
      (id c : ℕ)
      → Safe (stock_account m catalog p) (Kept m catalog p c) (prime_from_mongo m (m.to_hex id)) c
  unfolding prime_from_mongo
  prime_from_mongo-Safe id c =
      Safe-bind (stock_account m catalog p) (Found m catalog p id c) (Kept m catalog p c)
        (find_product m (m.to_hex id)) (prime m (m.to_hex id)) c
        (find_product-Safe m catalog p (m.to_hex id) id c (m.object_id-to_hex id))
        (λ product c' h. rw (h.0) (prime-Safe id c product h.1)) (λ e c' h. h)

  settle-Safe :
      (id qty c c' : ℕ) (reply : BuyReply)
      → c' ≡ c + taken m catalog p reply (m.to_hex id) qty
      → Safe (stock_account m catalog p) (Purchased id qty c) (settle m (m.to_hex id) reply) c'
  unfolding settle
  settle-Safe id qty c c' unprimed h = omega (arith, h)
  settle-Safe id qty c c' short h = omega (arith, h)
  settle-Safe id qty c c' (remaining n) h =
      Safe-bind (stock_account m catalog p) (Quiet m catalog p c') (Purchased id qty c)
        (publish_stock_update (m.to_hex id) n _) (λ _. ret (PurchaseResult.ok n)) c'
        (publish-Safe m catalog p (m.to_hex id) n _ c') (λ a d k. k ∙ h) (λ e d k. absurd k)

  retry-Safe :
      (id qty c : ℕ) (exists : Bool)
      → Safe (stock_account m catalog p) (Purchased id qty c) (retry m (m.to_hex id) qty exists) c
  unfolding retry
  retry-Safe id qty c false = refl
  retry-Safe id qty c true =
      Safe-bind (stock_account m catalog p) (Bought m catalog p (m.to_hex id) qty c)
        (Purchased id qty c) (buy_stock (m.to_hex id) qty) (settle m (m.to_hex id)) c
        (buy_stock-Safe m catalog p (m.to_hex id) qty c)
        (λ reply c' h. settle-Safe id qty c c' reply h) (λ e c' h. h)

  after_first-Safe :
      (id qty c c' : ℕ) (reply : BuyReply)
      → c' ≡ c + taken m catalog p reply (m.to_hex id) qty
      → Safe
          (stock_account m catalog p)
          (Purchased id qty c)
          (after_first m (m.to_hex id) qty reply)
          c'
  unfolding after_first
  after_first-Safe id qty c c' unprimed h =
      Safe-bind (stock_account m catalog p) (Kept m catalog p c) (Purchased id qty c)
        (prime_from_mongo m (m.to_hex id)) (retry m (m.to_hex id) qty) c'
        (let e : c' ≡ c = omega (arith, h) in rw e (prime_from_mongo-Safe id c))
        (λ exists d k. rw k (retry-Safe id qty c exists)) (λ e d k. k)
  after_first-Safe id qty c c' short h = settle-Safe id qty c c' short h
  after_first-Safe id qty c c' (remaining n) h = settle-Safe id qty c c' (remaining n) h

  -- At every interleaving with other functions that keep the account.
  pub purchase-Safe :
      (id qty c : ℕ)
      → Safe (stock_account m catalog p) (Purchased id qty c) (purchase m (m.to_hex id) qty) c
  unfolding purchase
  purchase-Safe id qty c =
      Safe-bind (stock_account m catalog p) (Bought m catalog p (m.to_hex id) qty c)
        (Purchased id qty c) (buy_stock (m.to_hex id) qty) (after_first m (m.to_hex id) qty) c
        (buy_stock-Safe m catalog p (m.to_hex id) qty c)
        (λ reply c' h. after_first-Safe id qty c c' reply h) (λ e c' h. h)
