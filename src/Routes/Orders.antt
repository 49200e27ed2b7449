-- ===== src/Routes/Orders.antt =====
-- api/src/routes/orders.ts: a buyer's own orders.
pub mod Ownership
use flashkart.Base.{
  ℕ, zero, suc, Bool, true, false, String, Option, none, some, List, [], ◌∷◌, str_eq, not, ◌==◌,
  if◌then◌else◌,
}
use flashkart.Shared.Failures
use flashkart.Runtime.{ret, throw, app, ◌>>=◌}
use flashkart.Store.{Mongoose, Action, Order, mongo, cast}
use flashkart.Worker.Pipeline.{find_order}

abbrev pub page : ℕ
page = 50

-- The orders of a user, at most `n`. The store keeps its orders newest first.
unfoldable pub orders_of : ℕ → ℕ → List Order → List Order
orders_of zero user_id os = []
orders_of (suc n) user_id [] = []
orders_of (suc n) user_id (o ∷ os) =
    if o.user_id == user_id then o ∷ orders_of n user_id os else orders_of (suc n) user_id os

module _ (m : Mongoose) where
  -- `GET /mine`
  unfoldable pub mine : String → Action (List Order)
  unfolding orders_of
  mine user_id = cast (m.object_id user_id) λ id. mongo λ t w. (orders_of page id w.orders, w)

  unfoldable pub viewed : String → Option Order → Action Order
  viewed user_id none = throw (app (Failures.not_found "order not found"))
  viewed user_id (some order) =
      if not (str_eq (m.to_hex order.user_id) user_id)
      then throw (app (Failures.forbidden "not your order"))
      else ret order

  -- `GET /:id`
  unfoldable pub view : String → String → Action Order
  unfolding viewed
  view id user_id =
      if m.is_valid_object_id id
      then find_order m id >>= viewed user_id
      else throw (app (Failures.bad_request "invalid order id"))
