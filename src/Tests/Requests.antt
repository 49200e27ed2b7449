-- ===== src/Tests/Requests.antt =====
-- One purchase under an idempotency key, and requests on the holds and orders of others.
use flashkart.Base.{ℕ, ◌≡◌, refl, true, false, String, some, none, List, [], ◌∷◌, ◌++◌, arith, ◌==◌}
use flashkart.Shared.Replies.{Reply, pending_order}
use flashkart.Shared.Events.{OrderStatus}
use flashkart.Runtime.{Tick, ret, throw, ok, err, mongo_error}
use flashkart.Runtime.Pool.{run_alone, advance}
use flashkart.Runtime.Endings.{Ends}
use flashkart.Store.{World, Action, Reservation, ReservationStatus, Order, find_one}
use flashkart.Inventory.{
  buy_lua, stock_after, buy_stock, claim, set_nx, emit_stock, publish_stock_update, find_product,
  prime, prime_from_mongo, settle, retry, after_first, purchase,
}
use flashkart.Routes.Products.{
  enqueue_process_order, create_order, place_order, bought, do_purchase,
}
use flashkart.Idempotency.{live_entry, with_idempotency, put_idem}
use flashkart.Idempotency.Replay.{locked, failure_unlocks, retry_replays}
use flashkart.Routes.Holds.{confirm, release}
use flashkart.Routes.Holds.Ownership.{foreign_untouched}
use flashkart.Routes.Orders.{mine}
use flashkart.Routes.Orders.Ownership.{IsPage, mine-IsPage}
use flashkart.Tests.Setup.{mongoose, shop, spell, at, down}

abbrev key : String
key = "buy:3:7:attempt-1"

abbrev one_ticket : Action Reply
one_ticket = do_purchase mongoose (spell 3) (spell 7) 1

abbrev hours : List Tick
hours = at 1 0 ∷ at 2 0 ∷ at 3 0 ∷ at 4 0 ∷ at 5 0 ∷ at 6 0 ∷ at 7 12 ∷ at 8 0 ∷ []

abbrev receipt : Reply
receipt = record { status = 201; body = pending_order (spell 12) (spell 7) 1 1 }

abbrev after_sale : World
after_sale = (run_alone hours one_ticket (locked shop key 0)).1

no_key : live_entry (shop.idem key) 0 ≡ none
unfolding live_entry
no_key = refl

sale-Ends : Ends one_ticket hours (locked shop key 0) (ok receipt) after_sale
unfolding run_alone advance purchase buy_lua stock_after buy_stock claim set_nx emit_stock
    publish_stock_update find_product prime prime_from_mongo settle retry after_first
    enqueue_process_order create_order place_order bought do_purchase
sale-Ends = (refl, refl)

retry_replays_example :
    let first =
      run_alone (at 0 0 ∷ hours ++ (at 9 0 ∷ [])) (with_idempotency key one_ticket) shop in
    (first.0 ≡ ret (record { replayed = false; value = receipt }))
    × (run_alone
          (at 20 0 ∷ at 21 0 ∷ at 22 0 ∷ at 23 0 ∷ [])
          (with_idempotency key one_ticket)
          first.1
        ≡ (ret (record { replayed = true; value = receipt }), first.1))
retry_replays_example =
    retry_replays key one_ticket one_ticket (at 0 0) (at 9 0) (at 20 0) (at 21 0) (at 22 0)
      (at 23 0) hours shop after_sale receipt no_key (refl, refl, refl, refl) sale-Ends
      (omega arith, omega arith) (omega arith)

abbrev failing : List Tick
failing = at 1 0 ∷ at 2 0 ∷ at 3 0 ∷ at 4 0 ∷ at 5 0 ∷ at 6 0 ∷ down 7 ∷ []

abbrev after_failure : World
after_failure = (run_alone failing one_ticket (locked shop key 0)).1

-- Mongo fails when the order is to be recorded: one unit is gone from the stock, and no order has it.
sale-Ends-failing : Ends one_ticket failing (locked shop key 0) (err mongo_error) after_failure
unfolding run_alone advance purchase buy_lua stock_after buy_stock claim set_nx emit_stock
    publish_stock_update find_product prime prime_from_mongo settle retry after_first
    enqueue_process_order create_order place_order bought do_purchase
sale-Ends-failing = (refl, refl)

failure_unlocks_example :
    run_alone (at 0 0 ∷ failing ++ (at 9 0 ∷ [])) (with_idempotency key one_ticket) shop
    ≡ (throw mongo_error, put_idem after_failure key none)
failure_unlocks_example =
    failure_unlocks key one_ticket (at 0 0) (at 9 0) failing shop after_failure mongo_error no_key
      (refl, refl) sale-Ends-failing

abbrev hold_of_4 : Reservation
hold_of_4 = record {
  id = 8;
  product_id = 7;
  user_id = some 4;
  quantity = 1;
  status = ReservationStatus.held;
  expires_at = 90000;
}

abbrev with_hold : World
with_hold = record shop { reservations = hold_of_4 ∷ [] }

hold_found : find_one (λ r. r.id == 8) with_hold.reservations ≡ some hold_of_4
unfolding find_one
hold_found = refl

foreign_untouched_example :
    ((run_alone (at 1 0 ∷ at 2 0 ∷ at 3 0 ∷ []) (confirm mongoose (spell 8) (spell 3)) with_hold).1
      ≡ with_hold)
    × ((run_alone
          (at 1 0 ∷ at 2 0 ∷ at 3 0 ∷ [])
          (release mongoose (spell 8) (spell 3))
          with_hold).1
        ≡ with_hold)
foreign_untouched_example =
    foreign_untouched mongoose (spell 8) (spell 3) 8 hold_of_4 (at 1 0 ∷ at 2 0 ∷ at 3 0 ∷ [])
      with_hold refl hold_found refl

abbrev order_of : ℕ → ℕ → Order
order_of id user_id = record {
  id = id;
  user_id = user_id;
  product_id = 7;
  quantity = 1;
  unit_price_paise = 9900;
  total_paise = 9900;
  status = OrderStatus.paid;
  payment_attempts = 1;
  failure_reason = none;
}

abbrev with_orders : World
with_orders = record shop { orders = order_of 1 3 ∷ order_of 2 4 ∷ [] }

mine-IsPage_example :
    (listed : List Order) × (run_alone (at 1 0 ∷ []) (mine mongoose (spell 3)) with_orders
      ≡ (ret listed, with_orders))
    × IsPage 50 listed (order_of 1 3 ∷ [])
mine-IsPage_example = mine-IsPage mongoose (spell 3) 3 (at 1 0) with_orders refl refl
