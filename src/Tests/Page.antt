-- ===== src/Tests/Page.antt =====
-- The page of a shopper whose access token has just expired.
use flashkart.Base.{
  ℕ, zero, suc, ◌≡◌, refl, true, false, String, some, none, List, [], ◌∷◌, map, All, arith, decimal,
}
use flashkart.Shared.Events.{Role, OrderStatus, pending, StockEventReason}
use flashkart.Runtime.{ret, Tick, Result, ok, Err}
use flashkart.Runtime.Pool.{run_alone}
use flashkart.Runtime.Finishing.{Finished}
use flashkart.Auth.Access.{ttl_to_seconds}
use flashkart.Auth.Lifetimes.{minutes, lifetime, ttl_to_seconds-lifetime}
use flashkart.Web.{Client, Me, Product, OrderRow, initial, subscribe_products, has}
use flashkart.Web.Rows.{SocketEvent, stock, order, receive, told_product, told_order, receive-last}
use flashkart.Web.Session.{
  my_orders, Call, Response, Json, Page, Form, registers, api_fetch, silent_refresh, load_products,
}
use flashkart.Web.Requests.{requests, buy_one-finishes}
use flashkart.Web.Start.{start-finishes}
use flashkart.Web.Renewal.{refresh_call, with_token, api_fetch-renews, api_fetch-gives_up}
use flashkart.Web.Buying.{buy_one}
use flashkart.Web.SignIn.{submit}
use flashkart.Web.SignIn.Endings.{submit-finishes}
use flashkart.Web.Subscriptions.{Subscribes, AllShown, subscribe_products-Subscribes}
use flashkart.Tests.Setup.{at}

abbrev ada : Me
ada = record { id = "u1"; email = "ada@example.com"; name = "Ada"; role = Role.buyer }

abbrev lamp : Product
lamp = record { id = "p1"; name = "lamp"; description = ""; price_paise = 9900; stock = 2 }

abbrev sofa : Product
sofa = record { id = "p2"; name = "sofa"; description = ""; price_paise = 990000; stock = 1 }

abbrev row : OrderRow
row = record {
  id = "o1";
  product_id = "p1";
  quantity = 1;
  total_paise = 9900;
  status = pending;
  failure_reason = none;
  created_at = none;
}

abbrev body : Json
body = record {
  access_token = some "fresh";
  user = some ada;
  products = none;
  orders = none;
  order_id = "o2";
  quantity = 1;
  remaining = 1;
  error_message = none;
}

abbrev status_of : ℕ → ℕ
status_of zero = 401
status_of (suc zero) = 200
status_of (suc (suc n)) = 201

abbrev response : ℕ → Response
response n = record { status = status_of n; json = ok body }

-- The network counts the requests: 401, a new token, and then 201.
abbrev network : Call → Tick → ℕ → Result Response × ℕ
network call t n = (ok (response n), suc n)

abbrev client : Client
client = record initial {
  me = some ada;
  access_token = some "stale";
  products = lamp ∷ sofa ∷ [];
  orders = row ∷ [];
  has_socket = true;
}

abbrev form : Form
form = record {
  mode = registers;
  email = "ada@example.com";
  name = "Ada";
  password = "correct horse";
  form_error = none;
  form_busy = false;
}

abbrev page : Page ℕ
page = record { client = client; form = form; net = 0; calls = [] }

abbrev hours : List Tick
hours = at 1 0 ∷ at 2 0 ∷ at 3 0 ∷ at 4 0 ∷ at 5 0 ∷ at 6 0 ∷ at 7 0 ∷ at 8 0 ∷ at 9 0 ∷ []

abbrev describe : Err → String
describe e = "failed"

abbrev uuid : ℕ → String
uuid n = decimal n ""

buy_one-finishes_example :
    Finished requests
      (λ w. w.client.busy "p1" ≡ false)
      3
      (run_alone hours (buy_one network describe uuid "p1") page)
buy_one-finishes_example =
    buy_one-finishes network describe uuid "p1" ada hours page refl (omega arith)

submit-finishes_example :
    Finished requests
      (λ w. w.form.form_busy ≡ false)
      2
      (run_alone hours (submit network describe) page)
submit-finishes_example = submit-finishes network describe hours page (omega arith)

start-finishes_example :
    ((run_alone hours (silent_refresh network) page).1.client.auth_ready ≡ true)
    × ((run_alone hours (load_products network describe) page).1.client.loading ≡ false)
start-finishes_example = start-finishes network describe hours page (omega arith)

abbrev four : List Tick
four = at 1 0 ∷ at 2 0 ∷ at 3 0 ∷ at 4 0 ∷ []

api_fetch-renews_example : run_alone four (api_fetch network my_orders) page ≡ (
  ret (response 2),
  record page {
    client = record client { me = some ada; access_token = some "fresh" };
    net = 3;
    calls =
        with_token network my_orders (some "fresh")
        ∷ refresh_call network
        ∷ with_token network my_orders (some "stale")
        ∷ [];
  },
)
api_fetch-renews_example =
    api_fetch-renews network my_orders (at 1 0) (at 2 0) (at 3 0) (at 4 0) page (response 0)
      (response 1) body "fresh" refl refl refl refl refl refl refl

-- Nor is the session known any more.
abbrev closed_network : Call → Tick → ℕ → Result Response × ℕ
closed_network call t n = (ok (response 0), suc n)

api_fetch-gives_up_example : run_alone four (api_fetch closed_network my_orders) page ≡ (
  ret (response 0),
  record page {
    client = record client { me = none; access_token = none };
    net = 2;
    calls = refresh_call closed_network ∷ with_token closed_network my_orders (some "stale") ∷ [];
  },
)
api_fetch-gives_up_example =
    api_fetch-gives_up closed_network my_orders (at 1 0) (at 2 0) (at 3 0) (at 4 0) page
      (response 0) (response 0) refl refl refl refl

abbrev told : List SocketEvent
told =
    stock (record { product_id = "p1"; remaining = 1; reason = StockEventReason.purchase; ts = 5 })
    ∷ order (record { order_id = "o1"; user_id = "u1"; status = OrderStatus.paid; ts = 6 })
    ∷ stock (record { product_id = "p1"; remaining = 0; reason = StockEventReason.reserve; ts = 7 })
    ∷ []

receive-last_example :
    ((receive told client).products ≡ map (told_product told) (lamp ∷ sofa ∷ []))
    × ((receive told client).orders ≡ map (told_order told) (row ∷ []))
receive-last_example = receive-last told client

subscribe_products-Subscribes_example :
    (ids : List String) × Subscribes client (subscribe_products client) ids
    × AllShown (lamp ∷ sofa ∷ []) ids
    × All (λ p. has p.id (subscribe_products client).subscribed ≡ true) (lamp ∷ sofa ∷ [])
subscribe_products-Subscribes_example = subscribe_products-Subscribes client refl tt

ttl_to_seconds-lifetime_example : ttl_to_seconds (lifetime 15 minutes) ≡ some 900
ttl_to_seconds-lifetime_example = ttl_to_seconds-lifetime 15 minutes
