-- ===== src/Routes/Reading.antt =====
-- The handlers that only read: the catalog, a hold, and a buyer's orders.
use flashkart.Base.{ℕ, String, Option, none, some, List, [], ◌∷◌, not, str_eq}
use flashkart.Runtime.{redis_error, mongo_error}
use flashkart.Runtime.Within.{done, stops, Within-bind, Within-if}
use flashkart.Store.{Mongoose, Product, Reservation, Order}
use flashkart.Machine.Aside.{Elsewhere, Elsewhere-read, Elsewhere-cast}
use flashkart.Inventory.{find_product, get_live_stock, or_catalog}
use flashkart.Inventory.Reservations.{find_reservation}
use flashkart.Worker.Pipeline.{find_order}
use flashkart.Routes.Catalog.{live_counters, list_products, shown, show_product}
use flashkart.Routes.Holds
use flashkart.Routes.Holds.{foreign, owned, ensure_owner, guarded}
use flashkart.Routes.Orders

module _ (m : Mongoose) where
  find_product-Elsewhere : (id : String) → Elsewhere (find_product m id)
  unfolding find_product
  find_product-Elsewhere id = Elsewhere-cast (m.object_id id) (λ n. Elsewhere-read mongo_error _)

  or_catalog-Elsewhere : (id : String) (o : Option ℕ) → Elsewhere (or_catalog m id o)
  unfolding or_catalog
  or_catalog-Elsewhere id none = Within-bind (find_product-Elsewhere id) (λ product. done)
  or_catalog-Elsewhere id (some n) = done

  get_live_stock-Elsewhere : (id : String) → Elsewhere (get_live_stock m id)
  unfolding get_live_stock
  get_live_stock-Elsewhere id = Within-bind (Elsewhere-read redis_error _) (or_catalog-Elsewhere id)

  live_counters-Elsewhere : (ps : List (ℕ × Product)) → Elsewhere (live_counters m ps)
  live_counters-Elsewhere [] = done
  live_counters-Elsewhere (p ∷ ps) = Elsewhere-read redis_error _

  pub list_products-Elsewhere : (ids : List ℕ) → Elsewhere (list_products m ids)
  unfolding list_products
  list_products-Elsewhere ids =
      Within-bind (Elsewhere-read mongo_error _)
        (λ ps. Within-bind (live_counters-Elsewhere ps) (λ live. done))

  shown-Elsewhere : (id : String) (o : Option Product) → Elsewhere (shown m id o)
  shown-Elsewhere id none = stops
  shown-Elsewhere id (some product) =
      Within-if product.active (Within-bind (get_live_stock-Elsewhere id) (λ live. done)) stops

  pub show_product-Elsewhere : (id : String) → Elsewhere (show_product m id)
  show_product-Elsewhere id =
      Within-if (m.is_valid_object_id id)
        (Within-bind (find_product-Elsewhere id) (shown-Elsewhere id)) stops

  owned-Elsewhere : (user_id : String) (o : Option Reservation) → Elsewhere (owned m user_id o)
  unfolding owned
  owned-Elsewhere user_id none = stops
  owned-Elsewhere user_id (some doc) = Within-if (foreign m doc.user_id user_id) stops done

  pub view_hold-Elsewhere : (id user_id : String) → Elsewhere (Holds.view m id user_id)
  unfolding Holds.view guarded ensure_owner find_reservation
  view_hold-Elsewhere id user_id =
      Within-if (m.is_valid_object_id id)
        (Within-bind
          (Within-bind (Elsewhere-cast (m.object_id id) (λ n. Elsewhere-read mongo_error _))
            (owned-Elsewhere user_id))
          (λ doc. done))
        stops

  pub mine-Elsewhere : (user_id : String) → Elsewhere (Orders.mine m user_id)
  unfolding Orders.mine
  mine-Elsewhere user_id = Elsewhere-cast (m.object_id user_id) (λ n. Elsewhere-read mongo_error _)

  viewed-Elsewhere : (user_id : String) (o : Option Order) → Elsewhere (Orders.viewed m user_id o)
  unfolding Orders.viewed
  viewed-Elsewhere user_id none = stops
  viewed-Elsewhere user_id (some order) =
      Within-if (not (str_eq (m.to_hex order.user_id) user_id)) stops done

  pub view_order-Elsewhere : (id user_id : String) → Elsewhere (Orders.view m id user_id)
  unfolding Orders.view find_order
  view_order-Elsewhere id user_id =
      Within-if (m.is_valid_object_id id)
        (Within-bind (Elsewhere-cast (m.object_id id) (λ n. Elsewhere-read mongo_error _))
          (viewed-Elsewhere user_id))
        stops
