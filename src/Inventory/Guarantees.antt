-- ===== src/Inventory/Guarantees.antt =====
-- The commands on the stock counter, and `purchase`, only make changes of the machine.
use flashkart.Base.{
  ℕ, ◌≡◌, refl, Bool, true, false, Bool-cases, inl, inr, String, Option, none, some, ltb, arith,
  subst, sym, ap, eq_iff,
}
use flashkart.Shared.Events.{StockEventReason}
use flashkart.Runtime.{redis_error, mongo_error}
use flashkart.Runtime.Guarantee.{returns, Guar-bind, Guar-try_catch, Guar-if}
use flashkart.Store.{put_key, Mongoose, Product, World}
use flashkart.Machine.{Change, keeps, sells, returns as gives, primes, aside, set_stock}
use flashkart.Machine.Rules.{Lawful, Lawful-command, Lawful-cast}
use flashkart.Inventory.{
  BuyReply, remaining, short, unprimed, buy_stock, buy_lua, stock_after, write_stock, incrby,
  set_nx, claim, emit_stock, publish_stock_update, find_product, prime, prime_from_mongo, settle,
  retry, after_first, purchase,
}

put_key-same :
    (f : String → Option ℕ) (key : String) (n : ℕ)
    → f key ≡ some n
    → (k : String) → put_key f key n k ≡ f k
put_key-same f key n e k = ground (arith, eq_iff key k, e)

-- To write what is there changes nothing.
unchanged : (w : World) (key : String) (n : ℕ) → w.stock key ≡ some n → set_stock w key n ≡ w
unchanged w key n e =
    ap (λ (f : String → Option ℕ). record w { stock = f }) (λ i k. put_key-same w.stock key n e k i)

buy-Change :
    {m : Mongoose}
    → (w : World) (key : String) (qty : ℕ) (old : Option ℕ) → w.stock key ≡ old
    → Change m w (write_stock w key (stock_after (buy_lua old qty) old))
unfolding buy_lua stock_after
buy-Change w key qty none e = keeps
buy-Change {m} w key qty (some n) e = elim (Bool-cases (ltb n qty)) [
  | inl h ↦ rw h (subst (Change m w) (sym (unchanged w key n e)) keeps)
  | inr h ↦ rw h (sells key n qty e (ground (arith, h)))
]

pub buy_stock-Lawful : {m : Mongoose} → (key : String) (qty : ℕ) → Lawful m (buy_stock key qty)
unfolding buy_stock
buy_stock-Lawful key qty =
    Lawful-command redis_error _ (λ t w. buy-Change w key qty (w.stock key) refl)

pub incrby-Lawful : {m : Mongoose} → (key : String) (qty : ℕ) → Lawful m (incrby key qty)
unfolding incrby
incrby-Lawful key qty = Lawful-command redis_error _ (λ t w. gives key qty)

claim-Change :
    {m : Mongoose}
    → (w : World) (key : String) (n : ℕ) (old : Option ℕ) → w.stock key ≡ old
    → Change m w (claim key n old w).1
unfolding claim
claim-Change w key n none e = primes key n e
claim-Change w key n (some old) e = keeps

set_nx-Lawful : {m : Mongoose} → (key : String) (n : ℕ) → Lawful m (set_nx key n)
unfolding set_nx
set_nx-Lawful key n = Lawful-command redis_error _ (λ t w. claim-Change w key n (w.stock key) refl)

pub emit_stock-Lawful :
    {m : Mongoose}
    → (product_id : String) (left : ℕ) (reason : StockEventReason)
    → Lawful m (emit_stock product_id left reason)
unfolding emit_stock
emit_stock-Lawful product_id left reason =
    Lawful-command redis_error _ (λ t w. aside _ (refl, refl, refl, refl, refl))

pub publish_stock_update-Lawful :
    {m : Mongoose}
    → (product_id : String) (left : ℕ) (reason : StockEventReason)
    → Lawful m (publish_stock_update product_id left reason)
unfolding publish_stock_update
publish_stock_update-Lawful product_id left reason =
    Guar-try_catch (emit_stock-Lawful product_id left reason) (λ e. returns)

module _ (m : Mongoose) where
  pub find_product-Lawful : (product_id : String) → Lawful m (find_product m product_id)
  unfolding find_product
  find_product-Lawful product_id =
      Lawful-cast (m.object_id product_id) (λ id. Lawful-command mongo_error _ (λ t w. keeps))

  prime-Lawful :
      (product_id : String) (product : Option Product) → Lawful m (prime m product_id product)
  unfolding prime
  prime-Lawful product_id none = returns
  prime-Lawful product_id (some product) =
      Guar-if product.active (Guar-bind (set_nx-Lawful product_id product.stock) (λ _. returns))
        returns

  prime_from_mongo-Lawful : (product_id : String) → Lawful m (prime_from_mongo m product_id)
  unfolding prime_from_mongo
  prime_from_mongo-Lawful product_id =
      Guar-bind (find_product-Lawful product_id) (prime-Lawful product_id)

  settle-Lawful : (product_id : String) (reply : BuyReply) → Lawful m (settle m product_id reply)
  unfolding settle
  settle-Lawful product_id unprimed = returns
  settle-Lawful product_id short = returns
  settle-Lawful product_id (remaining n) =
      Guar-bind (publish_stock_update-Lawful product_id n StockEventReason.purchase) (λ _. returns)

  retry-Lawful :
      (product_id : String) (qty : ℕ) (exists : Bool) → Lawful m (retry m product_id qty exists)
  unfolding retry
  retry-Lawful product_id qty false = returns
  retry-Lawful product_id qty true =
      Guar-bind (buy_stock-Lawful product_id qty) (settle-Lawful product_id)

  after_first-Lawful :
      (product_id : String) (qty : ℕ) (reply : BuyReply)
      → Lawful m (after_first m product_id qty reply)
  unfolding after_first
  after_first-Lawful product_id qty unprimed =
      Guar-bind (prime_from_mongo-Lawful product_id) (retry-Lawful product_id qty)
  after_first-Lawful product_id qty short = settle-Lawful product_id short
  after_first-Lawful product_id qty (remaining n) = settle-Lawful product_id (remaining n)

  pub purchase-Lawful : (product_id : String) (qty : ℕ) → Lawful m (purchase m product_id qty)
  unfolding purchase
  purchase-Lawful product_id qty =
      Guar-bind (buy_stock-Lawful product_id qty) (after_first-Lawful product_id qty)
