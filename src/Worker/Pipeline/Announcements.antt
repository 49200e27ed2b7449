-- ===== src/Worker/Pipeline/Announcements.antt =====
-- What the handlers announce is true: an event follows an update that found its order, and nothing
-- takes a status back.
use flashkart.Base.{ℕ, ◌≡◌, refl, ap, sym, subst, ◌∙◌, true, String, Option, none, some, arith}
use flashkart.Shared.Events.{OrderStatus, pending, failed, OrderEvent}
use flashkart.Runtime.{Err, redis_error, mongo_error}
use flashkart.Runtime.Guarantee.{Reach, Reach-trans, here, Guar, fails, Anything, Guar-command}
use flashkart.Store.{Mongoose, World, Action, Order, cast, find_one_and_update, update_one}
use flashkart.Machine.{Change, keeps, announces, moves_order, fails_order, OrderStep, Told}
use flashkart.Machine.Evolution.{find_one_and_update-Mem}
use flashkart.Machine.Events.{Told-later}
use flashkart.Worker.Pipeline.{
  set_order_status, set_failed, in_status, order_transition, publish, advance,
}

abbrev event : Mongoose → String → ℕ → OrderStatus → ℕ → OrderEvent
event m order_id user_id status ts = record {
  order_id = order_id;
  user_id = m.to_hex user_id;
  status = status;
  ts = ts;
}

-- What is known of an order that an update found: an event on it is true, whenever it is sent.
abbrev pub Current : Mongoose → String → OrderStatus → Option Order → World → Type 0
Current m order_id status none w = Unit {0}
Current m order_id status (some o) w =
    (ts : ℕ) → Told m w.orders (event m order_id o.user_id status ts)

in_status-id : (id : ℕ) (s : OrderStatus) (o : Order) → in_status id s o ≡ true → o.id ≡ id
in_status-id id s o h = ground (arith)

module _ (m : Mongoose) (order_id : String) where
  -- The update leaves the id and sets the status.
  abbrev Sets : OrderStatus → (Order → Order) → Type 0
  Sets s' u = (o : Order) → ((u o).id ≡ o.id) × ((u o).status ≡ s')

  found-Current :
      (id : ℕ) (s s' : OrderStatus) (u : Order → Order)
      → Sets s' u
      → m.object_id order_id ≡ some id
      → (w : World) (o : Option Order) → find_one_and_update (in_status id s) u w.orders ≡ o
      → Current m order_id s' o (record w { orders = update_one (in_status id s) u w.orders })
  found-Current id s s' u sets spelled w none e = tt
  found-Current id s s' u sets spelled w (some o) e =
      let r = find_one_and_update-Mem (in_status id s) u w.orders o e in
      let x = r.1.0 in
      λ ts. record {
        subject = o;
        listed = r.0;
        its_id =
            spelled ∙ ap some (sym (ap (λ y. y.id) r.1.2 ∙ (sets x).0 ∙ in_status-id id s x r.1.1));
        its_user = refl;
        reached = subst (Reach OrderStep s') (sym (ap (λ y. y.status) r.1.2 ∙ (sets x).1)) here;
      }

  transition-Guar :
      (id : ℕ) (s s' : OrderStatus) (u : Order → Order)
      → Sets s' u
      → m.object_id order_id ≡ some id
      → ((w : World) → Change m w (record w { orders = update_one (in_status id s) u w.orders }))
      → (w : World) → Guar (Change m) (Current m order_id s') w (order_transition id s u)
  unfolding order_transition
  transition-Guar id s s' u sets spelled change w =
      Guar-command mongo_error _ (λ v. keeps)
        (λ t v r. (change v, found-Current id s s' u sets spelled v _ refl))

  cast-Guar :
      {A : Type 0} {Q : A → World → Type 0} {f : ℕ → Action A} {w : World} (o : Option ℕ)
      → ((n : ℕ) → o ≡ some n → Guar (Change m) Q w (f n))
      → Guar (Change m) Q w (cast o f)
  cast-Guar none h = fails
  cast-Guar (some n) h = h n refl

  pub advance-Guar :
      (s s' : OrderStatus)
      → OrderStep s s'
      → (w : World) → Guar (Change m) (Current m order_id s') w (advance m order_id s s')
  unfolding advance
  advance-Guar s s' st w = cast-Guar (m.object_id order_id) λ id spelled.
      transition-Guar id s s' (set_order_status s') (λ o. (refl, refl)) spelled
        (λ v. moves_order id s s' st) w

  pub fail-Guar :
      (reason : Err) (w : World)
      → Guar
          (Change m)
          (Current m order_id failed)
          w
          (cast (m.object_id order_id) (λ id. order_transition id pending (set_failed reason)))
  fail-Guar reason w = cast-Guar (m.object_id order_id) λ id spelled.
      transition-Guar id pending failed (set_failed reason) (λ o. (refl, refl)) spelled
        (λ v. fails_order id reason) w

  -- A true event is published, some steps later.
  pub publish-Guar :
      (o : Order) (status : OrderStatus) (w v : World)
      → Current m order_id status (some o) w
      → Reach (Change m) w v
      → Guar (Change m) Anything v (publish m order_id o.user_id status)
  unfolding publish
  publish-Guar o status w v current r =
      Guar-command redis_error _ (λ u. keeps)
        (λ t u r'. (announces _ (Told-later (current t.now) (Reach-trans r r')), tt))
