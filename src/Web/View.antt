-- ===== src/Web/View.antt =====
-- web/src/App.tsx, what the page shows of a product and of an order.
pub mod Stages
use Prim.Native.String.{[], ◌++◌ as concat}
use flashkart.Base.{
  ℕ, zero, suc, ◌+◌, Bool, true, false, String, Option, none, some, List, ◌∷◌, map, str_eq, leb,
  ltb, not, ◌&&◌, ◌||◌, if◌then◌else◌, decimal,
}
use mathlib.Core.List.{[] as nil}
use flashkart.Shared.Events.{
  OrderStatus, pending, paid, fulfilled, confirmed, failed, order_status_eq,
}
use flashkart.Web.{Client, Me, Product, OrderRow, sign_in}
use flashkart.Web.Buying.{find_product}

-- `p.stock <= 0` and `p.stock < 10`
abbrev pub sold_out : Product → Bool
sold_out p = leb p.stock 0

abbrev pub low : Product → Bool
low p = not (sold_out p) && ltb p.stock 10

pub data Badge : Type 0 where
  red amber green : Badge

abbrev pub stock_class : Product → Badge
stock_class p = if sold_out p then Badge.red else if low p then Badge.amber else Badge.green

abbrev pub stock_text : Product → String
stock_text p = if sold_out p then "sold out" else decimal p.stock " left"

abbrev pub disabled : Client → Product → Bool
disabled c p = sold_out p || c.busy p.id

abbrev pub button_text : Client → Product → String
button_text c p = if sold_out p then "sold out" else if c.busy p.id then "buying…" else "buy 1"

-- `ORDER_STAGES`
abbrev pub order_stages : List OrderStatus
order_stages = pending ∷ paid ∷ fulfilled ∷ confirmed ∷ nil

unfoldable pub index_of : OrderStatus → List OrderStatus → Option ℕ
index_of s nil = none
index_of s (t ∷ ts) =
    let later = index_of s ts in
    if order_status_eq t s then some 0 else (elim later [ none ↦ none | some i ↦ some (suc i) ])

-- Whether the stage at `i` is lit, `i <= stageIdx`, where `none` stands for -1.
abbrev pub reached : Option ℕ → ℕ → Bool
reached none i = false
reached (some stage) i = leb i stage

unfoldable pub lit_from : Option ℕ → ℕ → List OrderStatus → List (OrderStatus × Bool)
lit_from stage i nil = nil
lit_from stage i (s ∷ ss) = (s, reached stage i) ∷ lit_from stage (suc i) ss

-- What the panel shows of an order: its failure, or its stages.
pub data Progress : Type 0 where
  failure : String → Progress
  stages : List (OrderStatus × Bool) → Progress

abbrev pub failure_text : Option String → String
failure_text none = "✗ failed"
failure_text (some reason) = if str_eq reason "" then "✗ failed" else concat "✗ failed — " reason

unfoldable pub progress : OrderRow → Progress
unfolding index_of lit_from
progress o =
    if order_status_eq o.status failed
    then failure (failure_text o.failure_reason)
    else stages (lit_from (index_of o.status order_stages) 0 order_stages)

abbrev named : Option Product → String
named none = "product"
named (some p) = p.name

-- The rows of `OrdersPanel`: the product's name, the quantity, the total and the progress.
abbrev pub orders_panel : List OrderRow → List Product → List (String × ℕ × ℕ × Progress)
orders_panel orders products =
    map (λ o. (named (find_product o.product_id products), o.quantity, o.total_paise, progress o))
      orders
