-- ===== src/Worker/Pipeline/Guarantees.antt =====
-- The handlers of the order queues, and the compensation, only make changes of the machine.
use flashkart.Base.{ℕ, ◌+◌, ◌*◌, refl, Bool, true, false, String, Option, none, some, ltb, not}
use flashkart.Shared.Events.{
  OrderStatus, pending, paid, fulfilled, confirmed, failed, order_status_eq, StockEventReason,
}
use flashkart.Runtime.{Err, mongo_error, queue_error, ◌>>=◌}
use flashkart.Runtime.Guarantee.{
  Reach-trans, here, Guar, gives, Anything, Guar-then, returns, throws, Guar-bind, Guar-try_catch,
  Guar-if,
}
use flashkart.Store.{Mongoose, World, Action, Order}
use flashkart.Worker.Pipeline.Announcements.{Current, advance-Guar, fail-Guar, publish-Guar}
use flashkart.Machine.{Change, keeps, aside, counts_attempt, OrderStep, pays, ships, tells}
use flashkart.Machine.Rules.{Lawful, Lawful-command, Lawful-cast, Lawful-read}
use flashkart.Inventory.Guarantees.{incrby-Lawful, emit_stock-Lawful}
use flashkart.Worker.Sweeper.{publish_stock}
use flashkart.Worker.Pipeline.{
  charge, charge_payment, save_attempts, enqueue_fulfill, enqueue_notify, find_order, advance,
  after_paid, charge_order, or_missing, process, refund, compensate_payment, on_failed,
  job_attempts, after_fulfilled, fulfill_order, fulfill, after_confirmed, notify_order, notify,
}

charge-Lawful : {m : Mongoose} → (force_fail : Bool) → Lawful m (charge force_fail)
unfolding charge
charge-Lawful true = throws
charge-Lawful false = Lawful-read (λ t w. Guar-if (ltb (t.random * 10) 1000000) throws returns)

charge_payment-Lawful :
    {m : Mongoose}
    → (force_fail : Bool) (order_id : String) (total_paise : ℕ)
    → Lawful m (charge_payment force_fail order_id total_paise)
unfolding charge_payment
charge_payment-Lawful force_fail order_id total_paise =
    Lawful-read (λ t w. charge-Lawful force_fail)

save_attempts-Lawful : {m : Mongoose} → (id n : ℕ) → Lawful m (save_attempts id n)
unfolding save_attempts
save_attempts-Lawful id n = Lawful-command mongo_error _ (λ t w. counts_attempt _ n)

enqueue_fulfill-Lawful : {m : Mongoose} → (order_id : String) → Lawful m (enqueue_fulfill order_id)
unfolding enqueue_fulfill
enqueue_fulfill-Lawful order_id =
    Lawful-command queue_error _ (λ t w. aside _ (refl, refl, refl, refl, refl))

enqueue_notify-Lawful : {m : Mongoose} → (order_id : String) → Lawful m (enqueue_notify order_id)
unfolding enqueue_notify
enqueue_notify-Lawful order_id =
    Lawful-command queue_error _ (λ t w. aside _ (refl, refl, refl, refl, refl))

module _ (m : Mongoose) where
  pub find_order-Lawful : (order_id : String) → Lawful m (find_order m order_id)
  unfolding find_order
  find_order-Lawful order_id =
      Lawful-cast (m.object_id order_id) (λ id. Lawful-command mongo_error _ (λ t w. keeps))

  -- An order moves on, and what follows may tell of it.
  advance-Lawful :
      (order_id : String) (s s' : OrderStatus) (f : Option Order → Action (Unit {0}))
      → OrderStep s s'
      → ((o : Option Order) (w : World)
          → Current m order_id s' o w
          → Guar (Change m) Anything w (f o))
      → Lawful m (advance m order_id s s' >>= f)
  advance-Lawful order_id s s' f st h w =
      Guar-then (advance-Guar m order_id s s' st w) (λ o v r current. h o v current)

  after_paid-Guar :
      (order_id : String) (o : Option Order) (w : World)
      → Current m order_id paid o w
      → Guar (Change m) Anything w (after_paid m order_id o)
  unfolding after_paid
  after_paid-Guar order_id none w current = gives tt
  after_paid-Guar order_id (some o) w current =
      Guar-then (publish-Guar m order_id o paid w w current here)
        (λ _ v r q. enqueue_fulfill-Lawful order_id v)

  charge_order-Lawful :
      (force_fail : Bool) (order_id : String) (order : Order)
      → Lawful m (charge_order m force_fail order_id order)
  unfolding charge_order
  charge_order-Lawful force_fail order_id order =
      Guar-if (not (order_status_eq order.status pending)) returns (
        Guar-bind (save_attempts-Lawful order.id (order.payment_attempts + 1)) λ _.
          Guar-bind (charge_payment-Lawful force_fail order_id order.total_paise)
            λ _. advance-Lawful order_id pending paid _ pays (after_paid-Guar order_id))

  or_missing-Lawful :
      (order_id : String) (f : Order → Action (Unit {0})) (o : Option Order)
      → ((order : Order) → Lawful m (f order))
      → Lawful m (or_missing m order_id f o)
  unfolding or_missing
  or_missing-Lawful order_id f none h = throws
  or_missing-Lawful order_id f (some order) h = h order

  -- Each handler finds its order first.
  handler-Lawful :
      (order_id : String) (f : Order → Action (Unit {0}))
      → ((order : Order) → Lawful m (f order))
      → Lawful m (do order ← find_order m order_id; or_missing m order_id f order)
  handler-Lawful order_id f h =
      Guar-bind (find_order-Lawful order_id) (λ o. or_missing-Lawful order_id f o h)

  pub process-Lawful :
      (force_fail : Bool) (order_id : String) → Lawful m (process m force_fail order_id)
  unfolding process
  process-Lawful force_fail order_id =
      handler-Lawful order_id _ (charge_order-Lawful force_fail order_id)

  refund-Guar :
      (order_id : String) (o : Option Order) (w : World)
      → Current m order_id failed o w
      → Guar (Change m) Anything w (refund m order_id o)
  unfolding refund publish_stock
  refund-Guar order_id none w current = gives tt
  refund-Guar order_id (some o) w current =
      Guar-then (incrby-Lawful (m.to_hex o.product_id) o.quantity w) λ left v r q.
        Guar-then (emit_stock-Lawful (m.to_hex o.product_id) left StockEventReason.release v)
          λ _ u r' q'. publish-Guar m order_id o failed w u current (Reach-trans r r')

  compensate_payment-Lawful :
      (order_id : String) (reason : Err) → Lawful m (compensate_payment m order_id reason)
  unfolding compensate_payment
  compensate_payment-Lawful order_id reason w =
      Guar-then (fail-Guar m order_id reason w) (λ o v r current. refund-Guar order_id o v current)

  pub on_failed-Lawful :
      (attempts_made : ℕ) (order_id : String) (reason : Err)
      → Lawful m (on_failed m attempts_made order_id reason)
  unfolding on_failed
  on_failed-Lawful attempts_made order_id reason =
      Guar-if (ltb attempts_made job_attempts) returns
        (Guar-try_catch (compensate_payment-Lawful order_id reason) (λ e. returns))

  after_fulfilled-Guar :
      (order_id : String) (o : Option Order) (w : World)
      → Current m order_id fulfilled o w
      → Guar (Change m) Anything w (after_fulfilled m order_id o)
  unfolding after_fulfilled
  after_fulfilled-Guar order_id none w current = gives tt
  after_fulfilled-Guar order_id (some o) w current =
      Guar-then (publish-Guar m order_id o fulfilled w w current here)
        (λ _ v r q. enqueue_notify-Lawful order_id v)

  fulfill_order-Lawful :
      (order_id : String) (order : Order) → Lawful m (fulfill_order m order_id order)
  unfolding fulfill_order
  fulfill_order-Lawful order_id order = Guar-if (not (order_status_eq order.status paid)) returns (
      Lawful-read
        λ t w. advance-Lawful order_id paid fulfilled _ ships (after_fulfilled-Guar order_id))

  pub fulfill-Lawful : (order_id : String) → Lawful m (fulfill m order_id)
  unfolding fulfill
  fulfill-Lawful order_id = handler-Lawful order_id _ (fulfill_order-Lawful order_id)

  after_confirmed-Guar :
      (order_id : String) (o : Option Order) (w : World)
      → Current m order_id confirmed o w
      → Guar (Change m) Anything w (after_confirmed m order_id o)
  unfolding after_confirmed
  after_confirmed-Guar order_id none w current = gives tt
  after_confirmed-Guar order_id (some o) w current =
      publish-Guar m order_id o confirmed w w current here

  notify_order-Lawful :
      (order_id : String) (order : Order) → Lawful m (notify_order m order_id order)
  unfolding notify_order
  notify_order-Lawful order_id order =
      Guar-if (not (order_status_eq order.status fulfilled)) returns (
        Lawful-read λ t w.
          advance-Lawful order_id fulfilled confirmed _ tells (after_confirmed-Guar order_id))

  pub notify-Lawful : (order_id : String) → Lawful m (notify m order_id)
  unfolding notify
  notify-Lawful order_id = handler-Lawful order_id _ (notify_order-Lawful order_id)
