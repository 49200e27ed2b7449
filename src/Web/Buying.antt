-- ===== src/Web/Buying.antt =====
-- web/src/App.tsx, `buy`. `uuid` is the text of `crypto.randomUUID()`.
use Prim.Native.String.{[], ◌++◌ as concat}
use flashkart.Base.{
  ℕ, ◌*◌, true, false, String, Option, none, some, List, ◌∷◌, str_eq, ◌==◌, if◌then◌else◌, decimal,
}
use mathlib.Core.List.{[] as nil}
use flashkart.Shared.Events.{OrderStatus}
use flashkart.Runtime.{Tick, ret, act, Result, Err, try_catch, ◌>>=◌}
use flashkart.Web.{Client, Me, Product, OrderRow, MessageKind, set_stock, say, set_busy}
use flashkart.Web.Session.{
  buy, Call, Response, Json, Script, edit, update, parse, api_fetch, message_or,
}

-- `products.find((p) => p._id === id)`
unfoldable pub find_product : String → List Product → Option Product
find_product id nil = none
find_product id (p ∷ ps) = if str_eq p.id id then some p else find_product id ps

-- `product?.pricePaise ?? 0`
abbrev pub price : Option Product → ℕ
price none = 0
price (some p) = p.price_paise

abbrev pub starting : String → Client → Client
starting id c = say id MessageKind.ok "buying…" (set_busy id true c)

-- The row of a new order, priced from the products that the page showed at the click.
abbrev pub new_row : String → List Product → Json → ℕ → OrderRow
new_row id shown body now = record {
  id = body.order_id;
  product_id = id;
  quantity = body.quantity;
  total_paise = price (find_product id shown) * body.quantity;
  status = OrderStatus.pending;
  failure_reason = none;
  created_at = some now;
}

abbrev pub shown_stock : String → ℕ → Client → Client
shown_stock id stock c = record c { products = set_stock id stock c.products }

unfoldable pub placed : String → List Product → Json → ℕ → Client → Client
unfolding find_product
placed id shown body now c =
    let c' =
      shown_stock id body.remaining (say id MessageKind.ok "✔ order placed — processing…" c) in
    record c' { orders = new_row id shown body now ∷ c'.orders }

-- What the page says of any other status.
unfoldable pub refused : String → ℕ → Json → Client → Client
refused id status body c =
    if status == 409
    then shown_stock id 0 (say id MessageKind.err "sold out" c)
    else if status == 429
    then say id MessageKind.err "slow down — rate limited" c
    else say id MessageKind.err (message_or body.error_message (concat "HTTP " (decimal status [])))
        c

unfoldable pub answered : String → List Product → ℕ → Json → ℕ → Client → Client
answered id shown status body now c =
    if status == 201 then placed id shown body now c else refused id status body c

module _ {Net : Type 0} (fetch : Call → Tick → Net → Result Response × Net)
    (describe : Err → String) (uuid : ℕ → String) where
  abbrev pub attempt : String → List Product → String → Script Net (Unit {0})
  attempt id shown key = do
    res ← api_fetch fetch (buy id key)
    body ← parse res
    act (λ t w. edit (answered id shown res.status body t.now) w) (λ t w. ret tt)

  abbrev pub report : String → Err → Script Net (Unit {0})
  report id e = update (say id MessageKind.err (describe e))

  abbrev pub buying : String → Option Me → List Product → String → Script Net (Unit {0})
  buying id none shown key = ret tt
  buying id (some user) shown key = do
    _ ← update (starting id)
    _ ← try_catch (attempt id shown key) (report id)
    update (set_busy id false)

  -- The click on a product: it sees the user and the products of the page as it was shown.
  unfoldable pub buy_one : String → Script Net (Unit {0})
  buy_one id = act (λ t w. w) (λ t w. buying id w.client.me w.client.products (uuid t.fresh))
