-- ===== src/Machine/Histories.antt =====
-- What the abstract machine makes of the orders in the course of any changes.
use flashkart.Base.{ℕ, ◌*◌, ◌<◌, ◌≡◌, refl, ◌∙◌, true, List, arith, sym, subst}
use flashkart.Shared.Events.{OrderStatus, pending, failed, order_status_eq→≡}
use flashkart.Runtime.{Err}
use flashkart.Runtime.Guarantee.{Reach, Reach-trans, here, next}
use flashkart.Store.{Mongoose, World, Order}
use flashkart.Worker.Pipeline.{in_status, set_order_status, set_failed, set_attempts}
use flashkart.Machine.{
  OrderStep, fails, Change, keeps, sells, returns, primes, holds, moves_hold, orders, moves_order,
  fails_order, counts_attempt, announces, aside, IsNewOrder,
}
use flashkart.Machine.Evolution.{Evolves, new, Evolves-refl, Evolves-update_one, Evolves-trans}

-- An order keeps what was bought and for how much, and its status goes by steps.
pub record OrderMoves (o o' : Order) : Type 0 where
  pub same_id : o'.id ≡ o.id
  pub same_user : o'.user_id ≡ o.user_id
  pub same_product : o'.product_id ≡ o.product_id
  pub same_quantity : o'.quantity ≡ o.quantity
  pub same_price : o'.unit_price_paise ≡ o.unit_price_paise
  pub same_total : o'.total_paise ≡ o.total_paise
  pub leads : Reach OrderStep o.status o'.status

-- An order that was placed meanwhile.
pub record OrderPlaced (o : Order) : Type 0 where
  pub from_pending : Reach OrderStep pending o.status
  pub priced : o.total_paise ≡ o.unit_price_paise * o.quantity
  pub some_quantity : 0 < o.quantity

OrderMoves-refl : (o : Order) → OrderMoves o o
OrderMoves-refl o = record {
  same_id = refl;
  same_user = refl;
  same_product = refl;
  same_quantity = refl;
  same_price = refl;
  same_total = refl;
  leads = here;
}

OrderMoves-trans : (a b c : Order) → OrderMoves a b → OrderMoves b c → OrderMoves a c
OrderMoves-trans a b c x y = record {
  same_id = y.same_id ∙ x.same_id;
  same_user = y.same_user ∙ x.same_user;
  same_product = y.same_product ∙ x.same_product;
  same_quantity = y.same_quantity ∙ x.same_quantity;
  same_price = y.same_price ∙ x.same_price;
  same_total = y.same_total ∙ x.same_total;
  leads = Reach-trans x.leads y.leads;
}

OrderPlaced-moves : (a b : Order) → OrderPlaced a → OrderMoves a b → OrderPlaced b
OrderPlaced-moves a b x y = record {
  from_pending = Reach-trans x.from_pending y.leads;
  priced = cc (y.same_total, x.priced, y.same_price, y.same_quantity);
  some_quantity = omega (arith, x.some_quantity, y.same_quantity);
}

abbrev pub OrdersEvolve : List Order → List Order → Type 0
OrdersEvolve = Evolves OrderMoves OrderPlaced

in_status-eq : (id : ℕ) (s : OrderStatus) (o : Order) → in_status id s o ≡ true → o.status ≡ s
in_status-eq id s o h = ground (arith, order_status_eq→≡ o.status s)

placed : (o : Order) → IsNewOrder o → 0 < o.quantity → OrderPlaced o
placed o n pos = record {
  from_pending = subst (Reach OrderStep pending) (sym n.0) here;
  priced = n.1;
  some_quantity = pos;
}

moved_order :
    (id : ℕ) (s s' : OrderStatus) (o : Order)
    → OrderStep s s'
    → in_status id s o ≡ true
    → OrderMoves o (set_order_status s' o)
moved_order id s s' o st h = record {
  same_id = refl;
  same_user = refl;
  same_product = refl;
  same_quantity = refl;
  same_price = refl;
  same_total = refl;
  leads = subst (λ x. Reach OrderStep x s') (sym (in_status-eq id s o h)) (next here st);
}

failed_order :
    (id : ℕ) (reason : Err) (o : Order)
    → in_status id pending o ≡ true
    → OrderMoves o (set_failed reason o)
failed_order id reason o h = record {
  same_id = refl;
  same_user = refl;
  same_product = refl;
  same_quantity = refl;
  same_price = refl;
  same_total = refl;
  leads =
      subst (λ x. Reach OrderStep x failed) (sym (in_status-eq id pending o h)) (next here fails);
}

counted_order : (n : ℕ) (o : Order) → OrderMoves o (set_attempts n o)
counted_order n o = record {
  same_id = refl;
  same_user = refl;
  same_product = refl;
  same_quantity = refl;
  same_price = refl;
  same_total = refl;
  leads = here;
}

Change-OrdersEvolve :
    {m : Mongoose} → {w w' : World} → Change m w w' → OrdersEvolve w.orders w'.orders
Change-OrdersEvolve {w} keeps = Evolves-refl OrderMoves-refl w.orders
Change-OrdersEvolve {w} (sells key n qty e le) = Evolves-refl OrderMoves-refl w.orders
Change-OrdersEvolve {w} (returns key qty) = Evolves-refl OrderMoves-refl w.orders
Change-OrdersEvolve {w} (primes key n e) = Evolves-refl OrderMoves-refl w.orders
Change-OrdersEvolve {w} (holds r e pos) = Evolves-refl OrderMoves-refl w.orders
Change-OrdersEvolve {w} (moves_hold p s st h) = Evolves-refl OrderMoves-refl w.orders
Change-OrdersEvolve {w} (announces ev told) = Evolves-refl OrderMoves-refl w.orders
Change-OrdersEvolve {w} (orders o n pos) =
    new (placed o n pos) (Evolves-refl OrderMoves-refl w.orders)
Change-OrdersEvolve {w} (moves_order id s s' st) =
    Evolves-update_one OrderMoves-refl _ _ (λ o h. moved_order id s s' o st h) w.orders
Change-OrdersEvolve {w} (fails_order id reason) =
    Evolves-update_one OrderMoves-refl _ _ (failed_order id reason) w.orders
Change-OrdersEvolve {w} (counts_attempt p n) =
    Evolves-update_one OrderMoves-refl p (set_attempts n) (λ o h. counted_order n o) w.orders
Change-OrdersEvolve {w} (aside w' e) = rw e.3 (Evolves-refl OrderMoves-refl w.orders)

-- In the course of any changes, every order keeps its terms and goes by the steps of its status, and
-- the orders that come are priced by their product and began as pending.
pub Reach-OrdersEvolve :
    {m : Mongoose} → {w w' : World} → Reach (Change m) w w' → OrdersEvolve w.orders w'.orders
Reach-OrdersEvolve {w} here = Evolves-refl OrderMoves-refl w.orders
Reach-OrdersEvolve {w} (next r c) =
    Evolves-trans OrderMoves-trans OrderPlaced-moves (Change-OrdersEvolve c) w.orders
      (Reach-OrdersEvolve r)
