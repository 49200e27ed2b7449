-- ===== src/Web/Rows.antt =====
-- What a stream of socket events leaves on the page.
use flashkart.Base.{
  ℕ, ◌≡◌, refl, ap, ◌∙◌, Bool-cases, inl, inr, String, List, [], ◌∷◌, map, str_eq, if◌then◌else◌,
}
use flashkart.Shared.Events.{StockEvent, OrderEvent, OrderStatus}
use flashkart.Web.{
  Client, Product, OrderRow, with_stock, set_stock, with_status, set_status, on_stock, on_order,
}

-- An event of the socket.
pub data SocketEvent : Type 0 where
  stock : StockEvent → SocketEvent
  order : OrderEvent → SocketEvent

unfoldable pub on_event : SocketEvent → Client → Client
on_event (stock ev) c = on_stock ev c
on_event (order ev) c = on_order ev c

-- The events, the oldest first.
unfoldable pub receive : List SocketEvent → Client → Client
receive [] c = c
receive (ev ∷ evs) c = receive evs (on_event ev c)

-- What the last event for a product says of its stock, and else `n`.
abbrev pub last_remaining : String → List SocketEvent → ℕ → ℕ
last_remaining id [] n = n
last_remaining id (stock ev ∷ evs) n =
    last_remaining id evs (if str_eq id ev.product_id then ev.remaining else n)
last_remaining id (order ev ∷ evs) n = last_remaining id evs n

abbrev pub last_status : String → List SocketEvent → OrderStatus → OrderStatus
last_status id [] s = s
last_status id (stock ev ∷ evs) s = last_status id evs s
last_status id (order ev ∷ evs) s =
    last_status id evs (if str_eq id ev.order_id then ev.status else s)

abbrev pub told_product : List SocketEvent → Product → Product
told_product evs p = record p { stock = last_remaining p.id evs p.stock }

abbrev pub told_order : List SocketEvent → OrderRow → OrderRow
told_order evs o = record o { status = last_status o.id evs o.status }

map-map :
    {A B C : Type 0} (f : A → B) (g : B → C) (h : A → C)
    → ((a : A) → g (f a) ≡ h a)
    → (xs : List A) → map g (map f xs) ≡ map h xs
map-map f g h e [] = refl
map-map f g h e (x ∷ xs) = rw (e x, map-map f g h e xs) refl

map_same : {A : Type 0} (f : A → A) → ((a : A) → f a ≡ a) → (xs : List A) → xs ≡ map f xs
map_same f e [] = refl
map_same f e (x ∷ xs) = rw (e x) (ap (λ ys. x ∷ ys) (map_same f e xs))

told-with_stock :
    (ev : StockEvent) (evs : List SocketEvent) (p : Product)
    → told_product evs (with_stock ev.product_id ev.remaining p) ≡ told_product (stock ev ∷ evs) p
unfolding with_stock
told-with_stock ev evs p = elim (Bool-cases (str_eq p.id ev.product_id)) [
  | inl e ↦ rw e refl
  | inr e ↦ rw e refl
]

told-with_status :
    (ev : OrderEvent) (evs : List SocketEvent) (o : OrderRow)
    → told_order evs (with_status ev.order_id ev.status o) ≡ told_order (order ev ∷ evs) o
unfolding with_status
told-with_status ev evs o = elim (Bool-cases (str_eq o.id ev.order_id)) [
  | inl e ↦ rw e refl
  | inr e ↦ rw e refl
]

-- After any events, in any order, the page shows the products and the orders that it showed before,
-- each product with the stock that the last event for it told, each order with the status that the
-- last event for it told, and what no event told about as it was.
pub receive-last :
    (evs : List SocketEvent) (c : Client)
    → ((receive evs c).products ≡ map (told_product evs) c.products)
      × ((receive evs c).orders ≡ map (told_order evs) c.orders)
unfolding receive on_event on_stock on_order set_stock set_status
receive-last [] c = (map_same _ (λ p. refl) c.products, map_same _ (λ o. refl) c.orders)
receive-last (stock ev ∷ evs) c =
    let rest = receive-last evs (on_stock ev c) in
    (rest.0 ∙ map-map _ _ _ (told-with_stock ev evs) c.products, rest.1)
receive-last (order ev ∷ evs) c =
    let rest = receive-last evs (on_order ev c) in
    (rest.0, rest.1 ∙ map-map _ _ _ (told-with_status ev evs) c.orders)
