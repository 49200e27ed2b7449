-- ===== src/Web.antt =====
-- web/src/App.tsx: the state of the page, and what the socket and the user do to it. React shows a
-- state before the next event comes; `accessTokenRef` follows `accessToken` at every rendering.
pub mod Session
pub mod SignIn
pub mod Buying
pub mod View
pub mod Rows
pub mod Subscriptions
pub mod Requests
pub mod Renewal
pub mod Start
use flashkart.Base.{
  ℕ, Bool, true, false, String, Option, none, some, List, [], ◌∷◌, map, str_eq, if◌then◌else◌,
}
use flashkart.Shared.Events.{Role, StockEvent, OrderEvent, OrderStatus}

pub record Product : Type 0 where
  pub id : String
  pub name : String
  pub description : String
  pub price_paise : ℕ
  pub stock : ℕ

pub record OrderRow : Type 0 where
  pub id : String
  pub product_id : String
  pub quantity : ℕ
  pub total_paise : ℕ
  pub status : OrderStatus
  pub failure_reason : Option String
  pub created_at : Option ℕ

pub record Me : Type 0 where
  pub id : String
  pub email : String
  pub name : String
  pub role : Role

pub data MessageKind : Type 0 where
  ok err : MessageKind

pub record Message : Type 0 where
  pub kind : MessageKind
  pub text : String

-- What the page sends over the socket.
pub data Emitted : Type 0 where
  subscribe : String → Emitted
  subscribe_orders : String → Emitted

pub record Client : Type 0 where
  pub me : Option Me
  pub access_token : Option String
  pub auth_ready : Bool
  pub products : List Product
  pub loading : Bool
  pub load_error : Option String
  pub messages : String → Option Message
  pub busy : String → Bool
  pub orders : List OrderRow
  -- `socketRef.current`, as far as there is a socket, and `subscribedRef.current`.
  pub has_socket : Bool
  pub subscribed : List String
  pub emitted : List Emitted

-- `{ ...m, [id]: v }`
abbrev pub put : {V : Type 0} → (String → V) → String → V → String → V
put f id v k = if str_eq id k then v else f k

-- `prev.map((p) => (p._id === id ? { ...p, stock } : p))`
unfoldable pub with_stock : String → ℕ → Product → Product
with_stock id stock p = if str_eq p.id id then record p { stock = stock } else p

unfoldable pub set_stock : String → ℕ → List Product → List Product
unfolding with_stock
set_stock id stock products = map (with_stock id stock) products

unfoldable pub with_status : String → OrderStatus → OrderRow → OrderRow
with_status id status o = if str_eq o.id id then record o { status = status } else o

unfoldable pub set_status : String → OrderStatus → List OrderRow → List OrderRow
unfolding with_status
set_status id status orders = map (with_status id status) orders

-- The listeners of `stock` and `order`.
unfoldable pub on_stock : StockEvent → Client → Client
on_stock ev c = record c { products = set_stock ev.product_id ev.remaining c.products }

unfoldable pub on_order : OrderEvent → Client → Client
on_order ev c = record c { orders = set_status ev.order_id ev.status c.orders }

unfoldable pub has : String → List String → Bool
has id [] = false
has id (s ∷ ss) = if str_eq s id then true else has id ss

-- One round of the loop over the products.
unfoldable pub subscribe_product : Product → Client → Client
subscribe_product p c =
    if has p.id c.subscribed
    then c
    else record c { emitted = subscribe p.id ∷ c.emitted; subscribed = p.id ∷ c.subscribed }

unfoldable pub subscribe_each : List Product → Client → Client
subscribe_each [] c = c
subscribe_each (p ∷ ps) c = subscribe_each ps (subscribe_product p c)

-- The effect that follows every change of the products.
unfoldable pub subscribe_products : Client → Client
subscribe_products c = if c.has_socket then subscribe_each c.products c else c

-- The socket's effect at the start, and its cleanup.
unfoldable pub connect : Client → Client
connect c = record c { has_socket = true }

unfoldable pub disconnect : Client → Client
disconnect c = record c { has_socket = false; subscribed = [] }

abbrev pub sign_in : Option Me → Option String → Client → Client
sign_in user token c = record c { me = user; access_token = token }

abbrev pub sign_out : Client → Client
sign_out c = record c { me = none; access_token = none }

abbrev pub say : String → MessageKind → String → Client → Client
say id kind text c = record c {
  messages = put c.messages id (some (record { kind = kind; text = text }));
}

abbrev pub set_busy : String → Bool → Client → Client
set_busy id b c = record c { busy = put c.busy id b }

-- The first state of the page.
abbrev pub initial : Client
initial = record {
  me = none;
  access_token = none;
  auth_ready = false;
  products = [];
  loading = true;
  load_error = none;
  messages = λ id. none;
  busy = λ id. false;
  orders = [];
  has_socket = false;
  subscribed = [];
  emitted = [];
}
