-- ===== src/Tests/Stock.antt =====
-- Requests that compete for the two units of a product.
use flashkart.Base.{ℕ, ◌+◌, ◌≤◌, ◌≡◌, refl, String, some, none, List, [], ◌∷◌, map, All}
use flashkart.Runtime.{Tick}
use flashkart.Runtime.Pool.{run, run_alone, step_at, advance}
use flashkart.Inventory.Sales.{Sells, purchase-Sells}
use flashkart.Inventory.{
  PurchaseResult, buy_lua, stock_after, buy_stock, claim, set_nx, emit_stock, publish_stock_update,
  find_product, prime, prime_from_mongo, settle, retry, after_first, purchase,
}
use flashkart.Store.{World}
use flashkart.Inventory.Account.{pool_of, committed, IsSound}
use flashkart.Inventory.Concurrent.{Buy, buyer, sold, sold_exact, sold_bounded, AllSettled}
use flashkart.System.{Request, buys, reserves, ticks, serve, IsRegular}
use flashkart.Tests.Setup.{mongoose, ticket, shop, spell, at, down}

abbrev buyer_id : String
buyer_id = spell 3

abbrev ticket_id : String
ticket_id = spell 7

-- Two buyers and a reservation for three units of two; one command fails.
abbrev crowd : List Request
crowd =
    buys buyer_id ticket_id 1 none
    ∷ reserves buyer_id ticket_id 1 none
    ∷ buys buyer_id ticket_id 1 (some "attempt-1")
    ∷ ticks
    ∷ []

abbrev schedule : List (ℕ × Tick)
schedule =
    (0, at 1 0)
    ∷ (1, at 1 0)
    ∷ (0, at 2 0)
    ∷ (1, at 2 0)
    ∷ (0, at 2 0)
    ∷ (1, at 3 0)
    ∷ (0, at 4 0)
    ∷ (2, at 4 0)
    ∷ (2, down 5)
    ∷ (1, at 5 11)
    ∷ (1, at 6 11)
    ∷ (0, at 7 12)
    ∷ (3, at 8 0)
    ∷ []

abbrev shop_at_end : World
shop_at_end = (run schedule (map (serve mongoose) crowd) shop).1

crowd-IsRegular : All (IsRegular mongoose) crowd
crowd-IsRegular = ((7, refl), ((7, refl), ((7, refl), (tt, tt))))

shop-IsSound : IsSound mongoose (some ticket) 7 shop
shop-IsSound = (refl, (λ h. refl), tt, tt)

abbrev bids : List Buy
bids = (7, 1) ∷ (7, 2) ∷ (7, 1) ∷ []

abbrev bidding : List (ℕ × Tick)
bidding =
    (0, at 1 0)
    ∷ (1, at 1 0)
    ∷ (0, at 2 0)
    ∷ (0, at 2 0)
    ∷ (0, at 2 0)
    ∷ (1, at 2 0)
    ∷ (1, at 3 0)
    ∷ (1, at 3 0)
    ∷ (0, at 3 0)
    ∷ (2, at 4 0)
    ∷ (2, at 4 0)
    ∷ (0, at 5 0)
    ∷ []

bids_settle :
    AllSettled mongoose
      (some ticket)
      7
      (run bidding (map (buyer mongoose (some ticket) 7) bids) shop).0
unfolding run step_at advance purchase buy_lua stock_after buy_stock claim set_nx emit_stock
    publish_stock_update find_product prime prime_from_mongo settle retry after_first
bids_settle = tt

sold_bounded_example :
    let r = run bidding (map (buyer mongoose (some ticket) 7) bids) shop in
    sold mongoose (some ticket) 7 bids r.0 + pool_of mongoose (some ticket) 7 r.1 + committed 7 r.1
    ≤ 2
sold_bounded_example = sold_bounded mongoose (some ticket) 7 bids bidding shop shop-IsSound

sold_exact_example :
    let r = run bidding (map (buyer mongoose (some ticket) 7) bids) shop in
    sold mongoose (some ticket) 7 bids r.0 + pool_of mongoose (some ticket) 7 r.1 + committed 7 r.1
    ≡ 2
sold_exact_example = sold_exact mongoose (some ticket) 7 bids bidding shop shop-IsSound bids_settle

purchase-Sells_example :
    Sells mongoose 7 2 shop
      (PurchaseResult.ok 0, some 0)
      (run_alone
        (at 1 0 ∷ at 2 0 ∷ at 3 0 ∷ at 4 0 ∷ at 5 0 ∷ [])
        (purchase mongoose ticket_id 2)
        shop)
purchase-Sells_example =
    purchase-Sells mongoose 7 2 (at 1 0) (at 2 0) (at 3 0) (at 4 0) (at 5 0) [] shop
      (refl, refl, refl, refl, refl)
