-- ===== src/Worker/Pipeline/Handlers.antt =====
-- The handlers of the queues move no unit of any product, and the compensation returns those of the
-- order that it fails.
use flashkart.Base.{
  ℕ, ◌+◌, ◌≡◌, refl, Bool, true, false, String, Option, none, some, arith, not, Bool-cases, inl,
  inr, ltb, ◌*◌,
}
use flashkart.Shared.Events.{
  OrderStatus, pending, paid, fulfilled, confirmed, failed, order_status_eq,
}
use flashkart.Runtime.{ret, Result, ok, err}
use flashkart.Runtime.Ledger.{Safe, Safe-weaken, Safe-fallible}
use flashkart.Store.{sleep, Mongoose, Product, Action, Order}
use flashkart.Inventory.Account.{stock_account, order_keeps}
use flashkart.Inventory.Commands.{Kept, Settled}
use flashkart.Inventory.Commands.Neutral.{
  Neutral, Neutral-bind, Neutral-local, Neutral-cast, Neutral-command,
}
use flashkart.Worker.Pipeline.Accounting.{Updated, advance_order-Safe, save_attempts-Safe}
use flashkart.Worker.Pipeline.{
  order_transition, set_order_status, charge, charge_payment, save_attempts, enqueue_fulfill,
  enqueue_notify, publish, find_order, advance, after_paid, charge_order, or_missing, process,
  after_fulfilled, fulfill_order, fulfill, after_confirmed, notify_order, notify,
}

module _ (m : Mongoose) (catalog : Option Product) (p : ℕ) where
  publish-Neutral :
      (order_id : String) (user_id : ℕ) (s : OrderStatus)
      → Neutral m catalog p (publish m order_id user_id s)
  unfolding publish
  publish-Neutral order_id user_id s =
      Neutral-command m catalog p _ _ (λ t w. refl) (λ t w. refl) (λ t w. refl) (λ t w. refl)

  enqueue_fulfill-Neutral : (order_id : String) → Neutral m catalog p (enqueue_fulfill order_id)
  unfolding enqueue_fulfill
  enqueue_fulfill-Neutral order_id =
      Neutral-command m catalog p _ _ (λ t w. refl) (λ t w. refl) (λ t w. refl) (λ t w. refl)

  enqueue_notify-Neutral : (order_id : String) → Neutral m catalog p (enqueue_notify order_id)
  unfolding enqueue_notify
  enqueue_notify-Neutral order_id =
      Neutral-command m catalog p _ _ (λ t w. refl) (λ t w. refl) (λ t w. refl) (λ t w. refl)

  find_order-Neutral : (order_id : String) → Neutral m catalog p (find_order m order_id)
  unfolding find_order
  find_order-Neutral order_id =
      Neutral-cast m catalog p (m.object_id order_id) _ λ id.
        Neutral-command m catalog p _ _ (λ t w. refl) (λ t w. refl) (λ t w. refl) (λ t w. refl)

  sleep-Neutral : Neutral m catalog p sleep
  sleep-Neutral = Neutral-local m catalog p (λ t w. ret tt) (λ t w c. refl)

  charge-Neutral : (force_fail : Bool) → Neutral m catalog p (charge force_fail)
  unfolding charge
  charge-Neutral true c = refl
  charge-Neutral false c =
      Neutral-local m catalog p _
        (λ t w c. elim (Bool-cases (ltb (t.random * 10) 1000000)) [
          | inl e ↦ rw e refl
          | inr e ↦ rw e refl
        ])
        c

  charge_payment-Neutral :
      (force_fail : Bool) (order_id : String) (total : ℕ)
      → Neutral m catalog p (charge_payment force_fail order_id total)
  unfolding charge_payment
  charge_payment-Neutral force_fail order_id total =
      Neutral-bind m catalog p sleep (λ _. charge force_fail) sleep-Neutral
        (λ a. charge-Neutral force_fail)

  advance-Neutral :
      (order_id : String) (before after : OrderStatus)
      → order_keeps before ≡ true
      → order_keeps after ≡ true
      → Neutral m catalog p (advance m order_id before after)
  unfolding advance
  advance-Neutral order_id before after kb ka =
      Neutral-cast m catalog p (m.object_id order_id) _ λ id c.
        Safe-weaken (stock_account m catalog p) (Updated m catalog p (λ o. 0) c)
          (Kept m catalog p c) (order_transition id before (set_order_status after)) c
          (advance_order-Safe m catalog p id before after c kb ka) (kept c)
    where
      kept :
          (c : ℕ) (r : Result (Option Order)) (c' : ℕ)
          → Updated m catalog p (λ o. 0) c r c'
          → Kept m catalog p c r c'
      kept c (ok none) c' h = h
      kept c (ok (some o)) c' h = omega (arith, h.0)
      kept c (err e) c' h = h

  or_missing-Neutral :
      (order_id : String) (f : Order → Action (Unit {0})) (o : Option Order)
      → ((o : Order) → Neutral m catalog p (f o))
      → Neutral m catalog p (or_missing m order_id f o)
  unfolding or_missing
  or_missing-Neutral order_id f none nf c = refl
  or_missing-Neutral order_id f (some o) nf c = nf o c

  after_paid-Neutral :
      (order_id : String) (o : Option Order) → Neutral m catalog p (after_paid m order_id o)
  unfolding after_paid
  after_paid-Neutral order_id none c = refl
  after_paid-Neutral order_id (some o) c =
      Neutral-bind m catalog p (publish m order_id o.user_id paid) (λ _. enqueue_fulfill order_id)
        (publish-Neutral order_id o.user_id paid) (λ _. enqueue_fulfill-Neutral order_id) c

  charge_order-Neutral :
      (force_fail : Bool) (order_id : String) (o : Order)
      → Neutral m catalog p (charge_order m force_fail order_id o)
  unfolding charge_order
  charge_order-Neutral force_fail order_id o =
      elim (Bool-cases (not (order_status_eq o.status pending))) [
        | inl e ↦ λ c. rw e refl
        | inr e ↦ λ c. rw e (
            Neutral-bind m catalog p (save_attempts o.id (o.payment_attempts + 1)) _
              (save_attempts-Safe m catalog p o.id (o.payment_attempts + 1))
              (λ _.
                Neutral-bind m catalog p (charge_payment force_fail order_id o.total_paise) _
                  (charge_payment-Neutral force_fail order_id o.total_paise)
                  (λ _.
                    Neutral-bind m catalog p (advance m order_id pending paid)
                      (after_paid m order_id) (advance-Neutral order_id pending paid refl refl)
                      (after_paid-Neutral order_id)))
              c)
      ]

  pub process-Neutral :
      (force_fail : Bool) (order_id : String) → Neutral m catalog p (process m force_fail order_id)
  unfolding process
  process-Neutral force_fail order_id =
      Neutral-bind m catalog p (find_order m order_id)
        (or_missing m order_id (charge_order m force_fail order_id)) (find_order-Neutral order_id)
        (λ o.
          or_missing-Neutral order_id (charge_order m force_fail order_id) o
            (charge_order-Neutral force_fail order_id))

  after_fulfilled-Neutral :
      (order_id : String) (o : Option Order) → Neutral m catalog p (after_fulfilled m order_id o)
  unfolding after_fulfilled
  after_fulfilled-Neutral order_id none c = refl
  after_fulfilled-Neutral order_id (some o) c =
      Neutral-bind m catalog p (publish m order_id o.user_id fulfilled)
        (λ _. enqueue_notify order_id) (publish-Neutral order_id o.user_id fulfilled)
        (λ _. enqueue_notify-Neutral order_id) c

  fulfill_order-Neutral :
      (order_id : String) (o : Order) → Neutral m catalog p (fulfill_order m order_id o)
  unfolding fulfill_order
  fulfill_order-Neutral order_id o = elim (Bool-cases (not (order_status_eq o.status paid))) [
    | inl e ↦ λ c. rw e refl
    | inr e ↦ λ c. rw e (
        Neutral-bind m catalog p sleep _ sleep-Neutral
          (λ _.
            Neutral-bind m catalog p (advance m order_id paid fulfilled)
              (after_fulfilled m order_id) (advance-Neutral order_id paid fulfilled refl refl)
              (after_fulfilled-Neutral order_id))
          c)
  ]

  pub fulfill-Neutral : (order_id : String) → Neutral m catalog p (fulfill m order_id)
  unfolding fulfill
  fulfill-Neutral order_id =
      Neutral-bind m catalog p (find_order m order_id)
        (or_missing m order_id (fulfill_order m order_id)) (find_order-Neutral order_id)
        (λ o.
          or_missing-Neutral order_id (fulfill_order m order_id) o (fulfill_order-Neutral order_id))

  after_confirmed-Neutral :
      (order_id : String) (o : Option Order) → Neutral m catalog p (after_confirmed m order_id o)
  unfolding after_confirmed
  after_confirmed-Neutral order_id none c = refl
  after_confirmed-Neutral order_id (some o) c = publish-Neutral order_id o.user_id confirmed c

  notify_order-Neutral :
      (order_id : String) (o : Order) → Neutral m catalog p (notify_order m order_id o)
  unfolding notify_order
  notify_order-Neutral order_id o = elim (Bool-cases (not (order_status_eq o.status fulfilled))) [
    | inl e ↦ λ c. rw e refl
    | inr e ↦ λ c. rw e (
        Neutral-bind m catalog p sleep _ sleep-Neutral
          (λ _.
            Neutral-bind m catalog p (advance m order_id fulfilled confirmed)
              (after_confirmed m order_id) (advance-Neutral order_id fulfilled confirmed refl refl)
              (after_confirmed-Neutral order_id))
          c)
  ]

  pub notify-Neutral : (order_id : String) → Neutral m catalog p (notify m order_id)
  unfolding notify
  notify-Neutral order_id =
      Neutral-bind m catalog p (find_order m order_id)
        (or_missing m order_id (notify_order m order_id)) (find_order-Neutral order_id)
        (λ o.
          or_missing-Neutral order_id (notify_order m order_id) o (notify_order-Neutral order_id))

  pub publish_failed-Safe :
      (order_id : String) (user_id c d : ℕ)
      → d ≡ c
      → Safe
          (stock_account m catalog p)
          (Settled m catalog p c)
          (publish m order_id user_id failed)
          d
  unfolding publish
  publish_failed-Safe order_id user_id c d h =
      Safe-fallible (stock_account m catalog p) (Settled m catalog p {A = Unit {0}} c) _ _ d
        (omega (arith, h)) (λ t w b. (d, (b.0, refl, λ h. h, b.1), h))
