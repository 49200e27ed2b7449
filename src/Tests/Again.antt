-- ===== src/Tests/Again.antt =====
-- A buyer who clicks three times, while somebody looks at the clock.
use flashkart.Base.{true, ℕ, ◌≤◌, ◌<◌, ◌+◌, List, [], ◌∷◌, map, All, arith}
use flashkart.Shared.Replies.{pending_order}
use flashkart.Runtime.{Tick, ret}
use flashkart.Runtime.Within.{done}
use flashkart.Runtime.Pool.{run}
use flashkart.Idempotency.{lock_ttl_ms, stored, live_entry}
use flashkart.Idempotency.Exclusion.{entry}
use flashkart.Routes.Checkout.Once.{
  Rival, again, other, IsRival, rival, fresh_answers, bought_once, AllHeld, buy_key,
}
use flashkart.Tests.Setup.{mongoose, shop, spell, at, down}

abbrev clicks : List Rival
clicks =
    again 1
    ∷ again 1
    ∷ other (
        ret (record {
          replayed = true;
          value = record { status = 201; body = pending_order "o" "p" 1 0 };
        }))
    ∷ again 2
    ∷ []

clicks-IsRival : All IsRival clicks
clicks-IsRival = (tt, (tt, (done, (tt, tt))))

abbrev seconds : List (ℕ × Tick)
seconds =
    (0, at 1000 0)
    ∷ (1, at 1000 0)
    ∷ (0, at 1001 0)
    ∷ (0, at 1002 0)
    ∷ (3, at 1002 0)
    ∷ (0, at 1003 0)
    ∷ (1, down 1003)
    ∷ (0, at 1004 0)
    ∷ (2, at 1005 0)
    ∷ []

seconds_in_window : All (λ e. (1000 ≤ e.1.now) × (e.1.now < 1000 + lock_ttl_ms)) seconds
seconds_in_window = omega arith

bought_once_example :
    let r = run seconds (map (rival mongoose (spell 3) (spell 7) "attempt-1") clicks) shop in
    (fresh_answers clicks r.0 ≤ 1)
    × AllHeld
        (stored (entry (buy_key mongoose (spell 3) (spell 7) "attempt-1") 1000 r.1))
        clicks
        r.0
unfolding live_entry
bought_once_example =
    bought_once mongoose (spell 3) (spell 7) "attempt-1" 1000 clicks seconds shop clicks-IsRival
      seconds_in_window tt
