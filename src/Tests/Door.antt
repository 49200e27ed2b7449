-- ===== src/Tests/Door.antt =====
-- The whole system: shoppers and strangers at the api, with jobs beside them.
use flashkart.Base.{
  ℕ, ◌+◌, ◌≤◌, ◌≡◌, refl, true, false, Option, none, some, List, [], ◌∷◌, map, All,
}
use flashkart.Shared.Events.{Role}
use flashkart.Runtime.{Tick}
use flashkart.Runtime.Pool.{run, step_at, advance}
use flashkart.Runtime.Settling.{AllWell}
use flashkart.Store.{World}
use flashkart.Machine.Histories.{OrdersEvolve}
use flashkart.Machine.Holds.{HoldsEvolve}
use flashkart.Machine.Events.{AllTold}
use flashkart.Inventory.Account.{pool_of, committed, IsSound}
use flashkart.Auth.{require_auth, verify_access, sign_access}
use flashkart.Auth.Entry.{Inputs}
use flashkart.System
use flashkart.Api.{
  Route, registers, buys, reserves, asks_me, shows_order, Request, Host, dispatch, routed, serve,
}
use flashkart.Api.Work.{Work, request, job, perform}
use flashkart.Api.Conservation.{system-IsSound}
use flashkart.Api.Access.{IsStranger, AllTurnedAway, strangers_turned_away}
use flashkart.Api.Accounting.{site_account}
use flashkart.Api.Conservation.{excused, IsRegularWork, system_never_oversells, system_loses_none}
use flashkart.Api.Refinement.{system-OrdersEvolve, system-HoldsEvolve, system_events_true}
use flashkart.Inventory.{
  buy_lua, stock_after, buy_stock, claim, set_nx, emit_stock, publish_stock_update, find_product,
  prime, prime_from_mongo, settle, retry, after_first, purchase,
}
use flashkart.Routes.Checkout.{
  buy, validated, valid_quantity, valid_key, key_chars, key_char, keyed,
}
use flashkart.Idempotency.{
  with_idempotency, claim_key, take_lock, live_entry, after_claim, run_first, store_result,
}
use flashkart.Routes.Products.{
  enqueue_process_order, create_order, place_order, bought, do_purchase,
}
use flashkart.RateLimit.{rate_check, lookup, refilled, spend}
use flashkart.RateLimit.Middleware.{bypassed, verdict, check_key, limit_identity, rate_limit}
use flashkart.Routes.Gate.{post_buy}
use flashkart.Tests.Setup.{mongoose, ticket, shop, spell, at, down}
use flashkart.Tests.Sessions.{Signed, jwt, env, site, forged}

abbrev inputs : Inputs
inputs = record {
  is_email = λ s. true;
  units = λ s. 9;
  kept_email = λ s. s;
  kept_name = λ s. s;
  hash = λ s. s;
  matches = λ s hash. true;
}

abbrev host : Host Signed
host = record {
  mongoose = mongoose;
  jwt = jwt;
  env = env;
  inputs = inputs;
  bypass_token = "";
  production = false;
  ids = 7 ∷ [];
}

abbrev asked : Route → Option Signed → Request Signed
asked route token = record {
  route = route;
  ip = some "10.0.0.1";
  bypass = none;
  token = token;
  cookie = none;
  fields = record {
    email = some "bob@example.com";
    name = some "Bob";
    password = some "correct horse";
  };
  quantity = 1;
  raw_key = some "attempt-1";
}

abbrev ada_token : Option Signed
ada_token = some (sign_access mongoose jwt env (spell 3) Role.buyer 0)

-- Ada buys and reserves, Bob registers, somebody has a forged token, and the sweeper ticks.
abbrev busy : List (Work Signed)
busy =
    request (asked (buys (spell 7)) ada_token)
    ∷ request (asked (reserves (spell 7)) ada_token)
    ∷ request (asked registers none)
    ∷ request (asked (buys (spell 7)) (some forged))
    ∷ job System.ticks
    ∷ []

abbrev moments : List (ℕ × Tick)
moments =
    (0, at 1 0)
    ∷ (1, at 1 0)
    ∷ (0, at 2 0)
    ∷ (3, at 2 0)
    ∷ (0, at 3 0)
    ∷ (1, at 3 0)
    ∷ (2, at 4 0)
    ∷ (4, at 4 0)
    ∷ (0, down 5)
    ∷ (1, at 5 0)
    ∷ (1, at 6 0)
    ∷ (0, at 7 0)
    ∷ (3, at 8 0)
    ∷ []

abbrev site_at_end : World
site_at_end = (run moments (map (perform host) busy) site).1.world

shop-IsSound : IsSound mongoose (some ticket) 7 shop
shop-IsSound = (refl, (λ h. refl), tt, tt)

busy-IsRegular : All (IsRegularWork host (some ticket) 7) busy
busy-IsRegular = ((7, refl), ((7, refl), (tt, ((7, refl), (tt, tt)))))

system_never_oversells_example :
    pool_of mongoose (some ticket) 7 site_at_end + committed 7 site_at_end ≤ 2
system_never_oversells_example =
    system_never_oversells host (some ticket) 7 busy moments site busy-IsRegular shop-IsSound

system-IsSound_example : IsSound mongoose (some ticket) 7 site_at_end
system-IsSound_example =
    system-IsSound host (some ticket) 7 busy moments site busy-IsRegular shop-IsSound

system-OrdersEvolve_example : OrdersEvolve [] site_at_end.orders
system-OrdersEvolve_example = system-OrdersEvolve host busy moments site

system-HoldsEvolve_example : HoldsEvolve [] site_at_end.reservations
system-HoldsEvolve_example = system-HoldsEvolve host busy moments site

system_events_true_example : AllTold mongoose site_at_end
system_events_true_example = system_events_true host busy moments site tt

abbrev strangers : List (Request Signed)
strangers =
    asked (buys (spell 7)) none
    ∷ asked asks_me (some forged)
    ∷ asked (shows_order (spell 9)) (some forged)
    ∷ []

strangers-IsStranger : All (IsStranger host) strangers
unfolding require_auth verify_access
strangers-IsStranger =
    ((refl, (λ now. (_, refl))), ((refl, (λ now. (_, refl))), ((refl, (λ now. (_, refl))), tt)))

strangers_turned_away_example :
    let r = run moments (map (serve host) strangers) site in (r.1.world ≡ shop) × AllTurnedAway r.0
strangers_turned_away_example =
    strangers_turned_away host strangers moments site strangers-IsStranger

abbrev lone : List (Work Signed)
lone = request (asked (buys (spell 7)) ada_token) ∷ []

abbrev lone_moments : List (ℕ × Tick)
lone_moments =
    (0, at 1 0)
    ∷ (0, at 1 0)
    ∷ (0, at 1 0)
    ∷ (0, at 1 0)
    ∷ (0, at 2 0)
    ∷ (0, at 3 0)
    ∷ (0, at 4 0)
    ∷ (0, at 5 0)
    ∷ (0, at 6 0)
    ∷ (0, at 7 12)
    ∷ (0, at 8 0)
    ∷ (0, at 9 0)
    ∷ (0, at 9 0)
    ∷ []

lone_ends_well :
    AllWell
      (site_account mongoose (some ticket) 7)
      excused
      lone
      (run lone_moments (map (perform host) lone) site).0
unfolding run step_at advance serve routed dispatch post_buy require_auth verify_access sign_access
    rate_limit limit_identity check_key verdict rate_check lookup refilled spend bypassed buy_lua
    stock_after buy_stock claim set_nx emit_stock publish_stock_update find_product prime
    prime_from_mongo settle retry after_first purchase enqueue_process_order create_order
    place_order bought do_purchase buy validated valid_quantity valid_key key_chars key_char keyed
    with_idempotency claim_key take_lock live_entry after_claim run_first store_result
lone_ends_well = (refl, tt)

system_loses_none_example :
    let w = (run lone_moments (map (perform host) lone) site).1.world in
    pool_of mongoose (some ticket) 7 w + committed 7 w ≡ 2
system_loses_none_example =
    system_loses_none host (some ticket) 7 lone lone_moments site ((7, refl), tt) shop-IsSound
      lone_ends_well
