-- ===== src/Worker/Pipeline.antt =====
-- worker/src/pipeline/orderPipeline.ts and payment.ts: the handlers of the three queues and the
-- compensation. `force_fail` is `FORCE_PAYMENT_FAIL`. BullMQ calls the handlers, any number of times.
pub mod Announcements
pub mod Guarantees
pub mod Accounting
pub mod Handlers
pub mod Compensation
use Prim.Native.String.{◌++◌ as concat}
use flashkart.Base.{
  ℕ, ◌+◌, ◌*◌, Bool, true, false, String, Option, none, some, ◌∷◌, ◌==◌, ltb, if◌then◌else◌, ◌&&◌,
  not,
}
use flashkart.Shared.Events.{
  OrderEvent, OrderStatus, pending, paid, fulfilled, confirmed, failed, order_status_eq,
  StockEventReason,
}
use flashkart.Runtime.{ret, throw, act, Err, error, try_catch, ◌>>=◌}
use flashkart.Store.{
  Mongoose, World, Action, Order, mongo, redis, queue, cast, find_one, find_one_and_update,
  update_one, sleep,
}
use flashkart.Inventory.{incrby}
use flashkart.Worker.Sweeper.{publish_stock}

abbrev pub job_attempts : ℕ
job_attempts = 3

-- `Math.random() < 0.1` declines.
pub charge : Bool → Action (Unit {0})
charge true = throw (error "payment declined (forced)")
charge false =
    act (λ t w. w)
      (λ t w.
        if ltb (t.random * 10) 1000000
        then throw (error "payment declined (random 10%)")
        else ret tt)

pub charge_payment : Bool → String → ℕ → Action (Unit {0})
unfolding charge
charge_payment force_fail order_id total_paise = do _ ← sleep; charge force_fail

abbrev pub set_order_status : OrderStatus → Order → Order
set_order_status s o = record o { status = s }

abbrev pub set_attempts : ℕ → Order → Order
set_attempts n o = record o { payment_attempts = n }

abbrev pub set_failed : Err → Order → Order
set_failed reason o = record o { status = failed; failure_reason = some reason }

abbrev pub in_status : ℕ → OrderStatus → Order → Bool
in_status id s o = o.id == id && order_status_eq o.status s

-- `findOneAndUpdate({_id, status}, {$set: …}, {new: true})`
pub order_transition : ℕ → OrderStatus → (Order → Order) → Action (Option Order)
order_transition id s u = mongo λ t w. (
  find_one_and_update (in_status id s) u w.orders,
  record w { orders = update_one (in_status id s) u w.orders },
)

-- `order.save()` writes the field that the handler changed.
pub save_attempts : ℕ → ℕ → Action (Unit {0})
save_attempts id n =
    mongo λ t w. (tt, record w { orders = update_one (λ o. o.id == id) (set_attempts n) w.orders })

pub enqueue_fulfill : String → Action (Unit {0})
enqueue_fulfill order_id = queue λ t w. (tt, record w { fulfill_jobs = order_id ∷ w.fulfill_jobs })

pub enqueue_notify : String → Action (Unit {0})
enqueue_notify order_id = queue λ t w. (tt, record w { notify_jobs = order_id ∷ w.notify_jobs })

module _ (m : Mongoose) where
  pub publish : String → ℕ → OrderStatus → Action (Unit {0})
  publish order_id user_id status = redis λ t w. (
    tt,
    record w {
      order_events =
          record { order_id = order_id; user_id = m.to_hex user_id; status = status; ts = t.now }
          ∷ w.order_events;
    },
  )

  unfoldable pub find_order : String → Action (Option Order)
  find_order order_id =
      cast (m.object_id order_id) λ id. mongo λ t w. (find_one (λ o. o.id == id) w.orders, w)

  pub advance : String → OrderStatus → OrderStatus → Action (Option Order)
  advance order_id before after =
      cast (m.object_id order_id) λ id. order_transition id before (set_order_status after)

  pub after_paid : String → Option Order → Action (Unit {0})
  after_paid order_id none = ret tt
  after_paid order_id (some updated) = do
    _ ← publish order_id updated.user_id paid
    enqueue_fulfill order_id

  pub charge_order : Bool → String → Order → Action (Unit {0})
  charge_order force_fail order_id order =
      if not (order_status_eq order.status pending) then ret tt else (do
        _ ← save_attempts order.id (order.payment_attempts + 1)
        _ ← charge_payment force_fail order_id order.total_paise
        updated ← advance order_id pending paid
        after_paid order_id updated)

  pub or_missing : String → (Order → Action (Unit {0})) → Option Order → Action (Unit {0})
  or_missing order_id f none = throw (error (concat (concat "order " order_id) " not found"))
  or_missing order_id f (some order) = f order

  pub process : Bool → String → Action (Unit {0})
  process force_fail order_id = do
    order ← find_order order_id
    or_missing order_id (charge_order force_fail order_id) order

  pub refund : String → Option Order → Action (Unit {0})
  refund order_id none = ret tt
  refund order_id (some order) = do
    left ← incrby (m.to_hex order.product_id) order.quantity
    _ ← publish_stock (m.to_hex order.product_id) left StockEventReason.release
    publish order_id order.user_id failed

  pub compensate_payment : String → Err → Action (Unit {0})
  compensate_payment order_id reason = do
    order ← cast (m.object_id order_id) λ id. order_transition id pending (set_failed reason)
    refund order_id order

  -- The listener of `failed`, with the job's `attemptsMade`; its own errors are logged.
  pub on_failed : ℕ → String → Err → Action (Unit {0})
  on_failed attempts_made order_id reason =
      if ltb attempts_made job_attempts
      then ret tt
      else try_catch (compensate_payment order_id reason) (λ e. ret tt)

  pub after_fulfilled : String → Option Order → Action (Unit {0})
  after_fulfilled order_id none = ret tt
  after_fulfilled order_id (some updated) = do
    _ ← publish order_id updated.user_id fulfilled
    enqueue_notify order_id

  pub fulfill_order : String → Order → Action (Unit {0})
  fulfill_order order_id order = if not (order_status_eq order.status paid) then ret tt else (do
    _ ← sleep
    updated ← advance order_id paid fulfilled
    after_fulfilled order_id updated)

  pub fulfill : String → Action (Unit {0})
  fulfill order_id = do
    order ← find_order order_id
    or_missing order_id (fulfill_order order_id) order

  pub after_confirmed : String → Option Order → Action (Unit {0})
  after_confirmed order_id none = ret tt
  after_confirmed order_id (some updated) = publish order_id updated.user_id confirmed

  pub notify_order : String → Order → Action (Unit {0})
  notify_order order_id order = if not (order_status_eq order.status fulfilled) then ret tt else (do
    _ ← sleep
    updated ← advance order_id fulfilled confirmed
    after_confirmed order_id updated)

  pub notify : String → Action (Unit {0})
  notify order_id = do
    order ← find_order order_id
    or_missing order_id (notify_order order_id) order
