-- ===== src/Inventory/Commands.antt =====
-- Each command on the stock keeps the account of a product, and moves the units that it says.
pub mod Neutral
use flashkart.Base.{
  ℕ, ◌+◌, ◌-◌, ◌<◌, ◌≤◌, ◌≡◌, refl, ◌∙◌, true, String, Option, none, some, str_eq, arith, eq_iff,
}
use flashkart.Shared.Events.{StockEventReason}
use flashkart.Runtime.{
  act, fallible, ◌>>=◌, ret, Result, ok, err, Err, redis_error, mongo_error, queue_error, app,
  error, Tick,
}
use flashkart.Runtime.Ledger.{
  Safe, Safe-bind, Safe-local, Safe-fallible, Safe-try_catch, Before, After,
}
use flashkart.Store.{Mongoose, Product, World, Action, cast}
use flashkart.Inventory.Account.{stock_account, units, of_product, catalog_stock}
use flashkart.Inventory.{
  BuyReply, remaining, short, unprimed, buy_stock, buy_lua, stock_after, write_stock, incrby,
  amount, set_nx, claim, emit_stock, publish_stock_update, find_product,
}

pub to_hex-injective : (m : Mongoose) (a b : ℕ) → m.to_hex a ≡ m.to_hex b → a ≡ b
to_hex-injective m a b h = cc (m.object_id-to_hex a, m.object_id-to_hex b)

module _ (m : Mongoose) (catalog : Option Product) (p : ℕ) where
  abbrev pub taken : BuyReply → String → ℕ → ℕ
  taken (remaining n) key qty = units m catalog p key qty
  taken short key qty = 0
  taken unprimed key qty = 0

  -- The script takes `qty` units from the pool when it succeeds, and else nothing.
  abbrev pub Bought : String → ℕ → ℕ → Result BuyReply → ℕ → Type 0
  Bought key qty c (ok reply) c' = c' ≡ c + taken reply key qty
  Bought key qty c (err e) c' = c' ≡ c

  buy-After :
      (key : String) (qty c : ℕ) (w : World) (old : Option ℕ)
      → w.stock key ≡ old
      → Before (stock_account m catalog p) c w
      → After
          (stock_account m catalog p)
          c
          w
          (c + taken (buy_lua old qty) key qty)
          (write_stock w key (stock_after (buy_lua old qty) old))
  unfolding buy_lua stock_after
  buy-After key qty c w none e b = ground (arith)
  buy-After key qty c w (some n) e b = ground (arith, eq_iff key (m.to_hex p))

  pub buy_stock-Safe :
      (key : String) (qty c : ℕ)
      → Safe (stock_account m catalog p) (Bought key qty c) (buy_stock key qty) c
  unfolding buy_stock
  buy_stock-Safe key qty c =
      Safe-fallible (stock_account m catalog p) (Bought key qty c) _ _ c refl λ t w b. (
        c + taken (buy_lua (w.stock key) qty) key qty,
        buy-After key qty c w (w.stock key) refl b,
        refl,
      )

  -- A refund puts the function's units of this product back.
  abbrev pub Refunded : String → ℕ → ℕ → Result ℕ → ℕ → Type 0
  Refunded key qty c (ok n) c' = c' + units m catalog p key qty ≡ c
  Refunded key qty c (err e) c' = (c' ≡ c) × (e ≡ redis_error)

  refund-After :
      (key : String) (qty c : ℕ) (w : World) (old : Option ℕ)
      → w.stock key ≡ old
      → 0 < qty
      → units m catalog p key qty ≤ c
      → Before (stock_account m catalog p) c w
      → After
          (stock_account m catalog p)
          c
          w
          (c - units m catalog p key qty)
          (write_stock w key (some (amount old + qty)))
  unfolding amount
  refund-After key qty c w none e pos owned b = ground (arith, eq_iff key (m.to_hex p))
  refund-After key qty c w (some n) e pos owned b = ground (arith, eq_iff key (m.to_hex p))

  pub incrby-Safe :
      (key : String) (qty c : ℕ)
      → 0 < qty
      → units m catalog p key qty ≤ c
      → Safe (stock_account m catalog p) (Refunded key qty c) (incrby key qty) c
  unfolding incrby
  incrby-Safe key qty c pos owned =
      Safe-fallible (stock_account m catalog p) (Refunded key qty c) _ _ c (refl, refl)
        λ t w b. (
          c - units m catalog p key qty,
          refund-After key qty c w (w.stock key) refl pos owned b,
          omega arith,
        )

  abbrev pub Kept : {A : Type 0} → ℕ → Result A → ℕ → Type 0
  Kept c r c' = c' ≡ c

  claim-After :
      (key : String) (n c : ℕ) (w : World) (old : Option ℕ)
      → w.stock key ≡ old
      → (str_eq key (m.to_hex p) ≡ true → n ≡ catalog_stock catalog)
      → Before (stock_account m catalog p) c w
      → After (stock_account m catalog p) c w c (claim key n old w).1
  unfolding claim
  claim-After key n c w none e same b = ground (arith, eq_iff key (m.to_hex p))
  claim-After key n c w (some k) e same b = ground (arith, eq_iff key (m.to_hex p))

  -- Priming this product's key with the catalog's stock moves no unit.
  pub set_nx-Safe :
      (key : String) (n c : ℕ)
      → (str_eq key (m.to_hex p) ≡ true → n ≡ catalog_stock catalog)
      → Safe (stock_account m catalog p) (Kept c) (set_nx key n) c
  unfolding set_nx
  set_nx-Safe key n c same =
      Safe-fallible (stock_account m catalog p) (Kept c) _ _ c refl
        λ t w b. (c, claim-After key n c w (w.stock key) refl same b, refl)

  abbrev pub Posted : ℕ → Result (Unit {0}) → ℕ → Type 0
  Posted c (ok a) c' = c' ≡ c
  Posted c (err e) c' = (c' ≡ c) × (e ≡ redis_error)

  pub emit-Safe :
      (product_id : String) (left : ℕ) (reason : StockEventReason) (c : ℕ)
      → Safe (stock_account m catalog p) (Posted c) (emit_stock product_id left reason) c
  unfolding emit_stock
  emit-Safe product_id left reason c =
      Safe-fallible (stock_account m catalog p) (Posted c) _ _ c (refl, refl)
        (λ t w b. (c, (b.0, refl, λ h. h, b.1), refl))

  -- It keeps the credit, and never rejects.
  abbrev pub Quiet : {A : Type 0} → ℕ → Result A → ℕ → Type 0
  Quiet c (ok a) c' = c' ≡ c
  Quiet c (err e) c' = ⊥

  pub publish-Safe :
      (product_id : String) (left : ℕ) (reason : StockEventReason) (c : ℕ)
      → Safe (stock_account m catalog p) (Quiet c) (publish_stock_update product_id left reason) c
  unfolding publish_stock_update
  publish-Safe product_id left reason c =
      Safe-try_catch (stock_account m catalog p) (Posted c) (Quiet c)
        (emit_stock product_id left reason) (λ _. ret tt) c (emit-Safe product_id left reason c)
        (λ a c' h. h) (λ e c' h. h.0)

  abbrev pub Found : ℕ → ℕ → Result (Option Product) → ℕ → Type 0
  Found id c (ok product) c' = (c' ≡ c) × (id ≡ p → product ≡ catalog)
  Found id c (err e) c' = c' ≡ c

  pub find_product-Safe :
      (product_id : String) (id c : ℕ)
      → m.object_id product_id ≡ some id
      → Safe (stock_account m catalog p) (Found id c) (find_product m product_id) c
  unfolding find_product
  find_product-Safe product_id id c e = rw e (
      Safe-fallible (stock_account m catalog p) (Found id c) _ _ c refl
        λ t w b. (c, (b.0, refl, λ h. h, b.1), (refl, λ same. rw same b.0.0)))

  -- A rejection leaves no unit behind, unless a command of Redis failed to return some.
  abbrev pub Failed : ℕ → Err → ℕ → Type 0
  Failed c mongo_error c' = c' ≡ c
  Failed c _ c' = c ≤ c'

  -- The end of an operation: it owns no new unit, except those that it failed to return.
  abbrev pub Settled : {A : Type 0} → ℕ → Result A → ℕ → Type 0
  Settled c (ok a) c' = c' ≡ c
  Settled c (err e) c' = Failed c e c'

  -- The end of a request: as above, but whatever fails may keep the units that it took.
  abbrev pub Spent : {A : Type 0} → ℕ → Result A → ℕ → Type 0
  Spent c (ok a) c' = c' ≡ c
  Spent c (err e) c' = c ≤ c'

  Failed→le : (c c' : ℕ) (e : Err) → Failed c e c' → c ≤ c'
  Failed→le c c' redis_error h = h
  Failed→le c c' mongo_error h = omega (arith, h)
  Failed→le c c' queue_error h = h
  Failed→le c c' (app e) h = h
  Failed→le c c' (error s) h = h

  pub Settled→Spent : {A : Type 0} (c : ℕ) (r : Result A) (c' : ℕ) → Settled c r c' → Spent c r c'
  Settled→Spent c (ok a) c' h = h
  Settled→Spent c (err e) c' h = Failed→le c c' e h

  pub Kept→Spent : {A : Type 0} (c : ℕ) (r : Result A) (c' : ℕ) → Kept c r c' → Spent c r c'
  Kept→Spent c (ok a) c' h = h
  Kept→Spent c (err e) c' h = omega (arith, h)

  pub Failed-redis : (c c' : ℕ) (e : Err) → c ≤ c' → e ≡ redis_error → Failed c e c'
  Failed-redis c c' e h k = rw k h

  pub Failed-kept : (c c' : ℕ) (e : Err) → c' ≡ c → Failed c e c'
  Failed-kept c c' mongo_error h = h
  Failed-kept c c' _ h = omega (arith, h)

  -- The key of a product stands for its units.
  pub units-of_product : (id qty : ℕ) → units m catalog p (m.to_hex id) qty ≡ of_product id p qty
  units-of_product id qty =
      ground (arith, eq_iff (m.to_hex id) (m.to_hex p), to_hex-injective m id p)

  -- An operation that logs the errors of its commands may end with units that it failed to return.
  abbrev pub Logged : {A : Type 0} → ℕ → Result A → ℕ → Type 0
  Logged c r c' = c ≤ c'

  pub Settled→Logged : (A : Type 0) (c : ℕ) (r : Result A) (c' : ℕ) → Settled c r c' → Logged c r c'
  Settled→Logged A c (ok a) c' h = omega (arith, h)
  Settled→Logged A c (err mongo_error) c' h = omega (arith, h)
  Settled→Logged A c (err redis_error) c' h = h
  Settled→Logged A c (err queue_error) c' h = h
  Settled→Logged A c (err (app e)) c' h = h
  Settled→Logged A c (err (error s)) c' h = h

  pub Posted→Settled :
      (c b : ℕ) → b ≡ c → (r : Result (Unit {0})) (b' : ℕ) → Posted b r b' → Settled c r b'
  Posted→Settled c b k (ok a) b' h = h ∙ k
  Posted→Settled c b k (err e) b' h = Failed-redis c b' e (omega (arith, h.0, k)) h.1
