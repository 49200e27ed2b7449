-- ===== src/Routes/Catalog.antt =====
-- api/src/routes/products.ts, `GET /` and `GET /:id`: products with their live stock. `ids` are the
-- ids of the products in Mongo, in the order in which it lists them.
pub mod Listing
use flashkart.Base.{
  ℕ, Bool, true, false, String, Option, none, some, List, [], ◌∷◌, map, if◌then◌else◌,
}
use flashkart.Shared.Failures
use flashkart.Runtime.{ret, throw, app, ◌>>=◌}
use flashkart.Store.{Mongoose, World, Product, Action, redis, mongo}
use flashkart.Inventory.{find_product, get_live_stock}

-- `find({ active: true })`
abbrev pub if_active : ℕ → Option Product → List (ℕ × Product) → List (ℕ × Product)
if_active id none rest = rest
if_active id (some p) rest = if p.active then (id, p) ∷ rest else rest

unfoldable pub active_products : (ℕ → Option Product) → List ℕ → List (ℕ × Product)
active_products products [] = []
active_products products (id ∷ ids) = if_active id (products id) (active_products products ids)

-- `live[i] !== null ? Number(live[i]) : p.stock`
abbrev pub with_live : Product → Option ℕ → Product
with_live p none = p
with_live p (some n) = record p { stock = n }

-- The counters come in the order of the products, and as many.
unfoldable pub overlay : List (ℕ × Product) → List (Option ℕ) → List (ℕ × Product)
overlay ((id, p) ∷ ps) (n ∷ live) = (id, with_live p n) ∷ overlay ps live
overlay ps _ = ps

module _ (m : Mongoose) where
  -- One `MGET` of all the keys, and none without products.
  abbrev pub live_counters : List (ℕ × Product) → Action (List (Option ℕ))
  live_counters [] = ret []
  live_counters (p ∷ ps) = redis λ t w. (map (λ e. w.stock (m.to_hex e.0)) (p ∷ ps), w)

  unfoldable pub list_products : List ℕ → Action (List (ℕ × Product))
  list_products ids = do
    products ← mongo λ t w. (active_products w.products ids, w)
    live ← live_counters products
    ret (overlay products live)

  abbrev pub shown : String → Option Product → Action (Product × Option ℕ)
  shown id none = throw (app (Failures.not_found "product not found"))
  shown id (some product) =
      if product.active
      then get_live_stock m id >>= (λ live. ret (product, live))
      else throw (app (Failures.not_found "product not found"))

  abbrev pub show_product : String → Action (Product × Option ℕ)
  show_product id =
      if m.is_valid_object_id id
      then find_product m id >>= shown id
      else throw (app (Failures.bad_request "invalid product id"))
