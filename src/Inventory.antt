-- ===== src/Inventory.antt =====
-- api/src/inventory/inventory.ts, the stock counter: the Lua script, priming and `purchase`, with
-- api/src/realtime/stockChannel.ts. The reservations are in Inventory/Reservations.antt.
pub mod Sales
pub mod Reservations
pub mod Account
pub mod Commands
pub mod Purchases
pub mod Concurrent
pub mod Guarantees
pub mod LiveStock
use mathlib.Core.Option
use flashkart.Base.{
  ℕ, ◌-◌, ◌+◌, Bool, true, false, String, Option, none, some, ◌∷◌, ltb, if◌then◌else◌, ◌&&◌,
}
use flashkart.Shared.Events.{StockEvent, StockEventReason}
use flashkart.Runtime.{Proc, ret, throw, act, Err, try_catch, ◌>>=◌, ◌>>◌}
use flashkart.Store.{Mongoose, Product, World, Action, redis, mongo, cast, date_now, put_key}

-- The numbers that `BUY_LUA` returns: at least 0, -1 and -2.
pub data BuyReply : Type 0 where
  remaining : ℕ → BuyReply
  short : BuyReply
  unprimed : BuyReply

-- The script, on the value of the key: the reply, and the value that it leaves.
unfoldable pub buy_lua : Option ℕ → ℕ → BuyReply
buy_lua none qty = unprimed
buy_lua (some stock) qty = if ltb stock qty then short else remaining (stock - qty)

unfoldable pub stock_after : BuyReply → Option ℕ → Option ℕ
stock_after (remaining n) old = some n
stock_after _ old = old

abbrev pub write_stock : World → String → Option ℕ → World
write_stock w k none = w
write_stock w k (some n) = record w { stock = put_key w.stock k n }

unfoldable pub buy_stock : String → ℕ → Action BuyReply
unfolding buy_lua stock_after
buy_stock key qty = redis λ t w.
    let reply = buy_lua (w.stock key) qty in
    (reply, write_stock w key (stock_after reply (w.stock key)))

pub amount : Option ℕ → ℕ
amount none = 0
amount (some n) = n

-- `INCRBY`, which counts from 0 on a missing key.
pub incrby : String → ℕ → Action ℕ
unfolding amount
incrby key qty =
    redis λ t w. let new = amount (w.stock key) + qty in (new, write_stock w key (some new))

unfoldable pub claim : String → ℕ → Option ℕ → World → Bool × World
claim key n none w = (true, write_stock w key (some n))
claim key n (some old) w = (false, w)

-- `SET key value NX`
unfoldable pub set_nx : String → ℕ → Action Bool
unfolding claim
set_nx key n = redis λ t w. claim key n (w.stock key) w

abbrev post : World → StockEvent → World
post w event = record w { stock_events = event ∷ w.stock_events }

-- `redis.publish(STOCK_CHANNEL, JSON.stringify(event))`
unfoldable pub emit_stock : String → ℕ → StockEventReason → Action (Unit {0})
emit_stock product_id left reason = redis λ t w.
    (tt, post w (record { product_id = product_id; remaining = left; reason = reason; ts = t.now }))

-- `void publishStockUpdate(...)`: the command is issued at once, and its failure is swallowed.
unfoldable pub publish_stock_update : String → ℕ → StockEventReason → Action (Unit {0})
publish_stock_update product_id left reason =
    try_catch (emit_stock product_id left reason) (λ _. ret tt)

pub data PurchaseResult : Type 0 where
  ok : ℕ → PurchaseResult
  sold_out : PurchaseResult
  not_found : PurchaseResult

module _ (m : Mongoose) where
  unfoldable pub find_product : String → Action (Option Product)
  find_product product_id = cast (m.object_id product_id) λ id. mongo λ t w. (w.products id, w)

  unfoldable pub or_catalog : String → Option ℕ → Action (Option ℕ)
  or_catalog product_id (some n) = ret (some n)
  or_catalog product_id none = do
    product ← find_product product_id
    ret (Option.map (λ p. p.stock) product)

  unfoldable pub get_live_stock : String → Action (Option ℕ)
  unfolding or_catalog
  get_live_stock product_id = do
    from_redis ← redis λ t w. (w.stock product_id, w)
    or_catalog product_id from_redis

  unfoldable pub prime : String → Option Product → Action Bool
  prime product_id none = ret false
  prime product_id (some product) =
      if product.active then (do _ ← set_nx product_id product.stock; ret true) else ret false

  unfoldable pub prime_from_mongo : String → Action Bool
  unfolding prime
  prime_from_mongo product_id = do product ← find_product product_id; prime product_id product

  -- The end of `purchase`, from the reply of the last call of the script.
  unfoldable pub settle : String → BuyReply → Action PurchaseResult
  settle product_id unprimed = ret not_found
  settle product_id short = ret sold_out
  settle product_id (remaining n) = do
    _ ← publish_stock_update product_id n StockEventReason.purchase
    ret (ok n)

  unfoldable pub retry : String → ℕ → Bool → Action PurchaseResult
  retry product_id qty false = ret not_found
  retry product_id qty true = do reply ← buy_stock product_id qty; settle product_id reply

  unfoldable pub after_first : String → ℕ → BuyReply → Action PurchaseResult
  after_first product_id qty unprimed = do
    exists ← prime_from_mongo product_id
    retry product_id qty exists
  after_first product_id qty reply = settle product_id reply

  unfoldable pub purchase : String → ℕ → Action PurchaseResult
  purchase product_id qty = do reply ← buy_stock product_id qty; after_first product_id qty reply
