-- ===== src/Api/Conservation.antt =====
-- The units of a product in the whole system: requests, jobs and timers.
use flashkart.Base.{ℕ, ◌+◌, ◌≤◌, ◌≡◌, Bool, true, Option, List, [], ◌∷◌, map, All}
use flashkart.Runtime.{Tick}
use flashkart.Runtime.Pool.{run}
use flashkart.Runtime.Ledger.{Safe, Safe-bind}
use flashkart.Runtime.Settling
use flashkart.Store.{Product}
use flashkart.Inventory.Account.{pool_of, committed, IsSound}
use flashkart.Routes.Gate.{Site}
use flashkart.System
use flashkart.System.{IsCanonical, IsRegular, swallows}
use flashkart.System.Conservation.{serve-Safe, Ends}
use flashkart.Api.{Host}
use flashkart.Api.Cases.{IdOk, serve-Closed}
use flashkart.Api.Accounting.{site_account, is_refusal, Clear, inside-Safe, Safe-Closed}
use flashkart.Api.Work.{Work, request, job, Answer, replied, finished, perform}

-- Work that may keep units: a refusal, and jobs that swallow errors.
abbrev pub excused : {Token : Type 0} → Work Token → Answer Token → Bool
excused (job j) a = swallows j
excused (request r) (replied x) = is_refusal x
excused (request r) (finished o) = true

module _ {Token : Type 0} (h : Host Token) (catalog : Option Product) (p : ℕ) where
  abbrev pub IsRegularWork : Work Token → Type 0
  IsRegularWork (request r) = IdOk (IsCanonical h.mongoose) r.route
  IsRegularWork (job j) = IsRegular h.mongoose j

  perform-Safe :
      (w : Work Token)
      → IsRegularWork w
      → Safe
          (site_account h.mongoose catalog p)
          (Settling.Ends (site_account h.mongoose catalog p) excused w)
          (perform h w)
          0
  perform-Safe (request r) regular =
      Safe-bind (site_account h.mongoose catalog p) Clear
        (Settling.Ends (site_account h.mongoose catalog p) excused (request r)) _ _ 0
        (serve-Closed h _ _ (Safe-Closed h catalog p) r regular) (λ x c k. k) (λ e c k. tt)
  perform-Safe (job j) regular =
      Safe-bind (site_account h.mongoose catalog p) (Ends h.mongoose catalog p j)
        (Settling.Ends (site_account h.mongoose catalog p) excused (job j)) _ _ 0
        (inside-Safe h.mongoose catalog p (Ends h.mongoose catalog p j) (System.serve h.mongoose j)
          0 (serve-Safe h.mongoose catalog p j regular))
        (λ x c k. k) (λ e c k. tt)

  perform-AllSafe :
      (ws : List (Work Token))
      → All IsRegularWork ws
      → All
          (λ w.
            Safe
              (site_account h.mongoose catalog p)
              (Settling.Ends (site_account h.mongoose catalog p) excused w)
              (perform h w)
              0)
          ws
  perform-AllSafe [] r = tt
  perform-AllSafe (w ∷ ws) r = (perform-Safe w r.0, perform-AllSafe ws r.1)

  module _ (ws : List (Work Token)) (s : List (ℕ × Tick)) (site : Site)
      (regular : All IsRegularWork ws) (sound : IsSound h.mongoose catalog p site.world) where
    -- For a product whose store is sound, and requests that spell the ids of products canonically:
    -- however the requests to the api, the jobs and the timers interleave, and whichever commands
    -- fail, the units of the product in stock, in live reservations and in live orders are never more
    -- than there were at the start.
    pub system_never_oversells :
        let w = site.world in
        let w' = (run s (map (perform h) ws) site).1.world in
        pool_of h.mongoose catalog p w' + committed p w'
        ≤ pool_of h.mongoose catalog p w + committed p w
    system_never_oversells =
        Settling.balance-le (site_account h.mongoose catalog p) excused (perform h) ws s site
          (perform-AllSafe ws regular) sound

    -- For the same work: when all of it is done, no request was refused, and no job was a tick of the
    -- sweeper or a compensation, the two sums are equal.
    pub system_loses_none :
        let w = site.world in
        let w' = (run s (map (perform h) ws) site).1.world in
        Settling.AllWell
          (site_account h.mongoose catalog p)
          excused
          ws
          (run s (map (perform h) ws) site).0
        → pool_of h.mongoose catalog p w' + committed p w'
          ≡ pool_of h.mongoose catalog p w + committed p w
    system_loses_none =
        Settling.balance-eq (site_account h.mongoose catalog p) excused (perform h) ws s site
          (perform-AllSafe ws regular) sound

    -- For the same work, the store is sound after any prefix of any interleaving: the catalog of the
    -- product is as it was, nothing is committed while its key is missing, and every reservation and
    -- order has a positive quantity.
    pub system-IsSound : IsSound h.mongoose catalog p (run s (map (perform h) ws) site).1.world
    system-IsSound =
        Settling.run-Inv (site_account h.mongoose catalog p) excused (perform h) ws s site
          (perform-AllSafe ws regular) sound
