-- ===== src/System.antt =====
-- The whole program as concurrent functions over one store: every request of api/src/routes that
-- touches stock, and every job and timer of worker/src. Any number of them run at once.
pub mod Conservation
pub mod Refinement
use flashkart.Base.{ℕ, ◌≡◌, Option, Bool, true, false, String, List, [], ◌∷◌, map}
use flashkart.Runtime.{Err, ret, ◌>>=◌}
use flashkart.Store.{Mongoose, Action}
use flashkart.Inventory.Reservations.{sweep_expired_reservations}
use flashkart.Worker.Sweeper
use flashkart.Worker.Pipeline
use flashkart.Idempotency.{IdemResult}
use flashkart.Routes.Checkout
use flashkart.Routes.Holds
use flashkart.Routes.Holds.{HoldReply}

pub data Request : Type 0 where
  buys : String → String → ℕ → Option String → Request
  reserves : String → String → ℕ → Option String → Request
  confirms : String → String → Request
  releases : String → String → Request
  sweeps : Request
  ticks : Request
  stops : Request
  processes : Bool → String → Request
  fails : ℕ → String → Err → Request
  fulfills : String → Request
  notifies : String → Request

pub data Outcome : Type 0 where
  replied : IdemResult → Outcome
  answered : HoldReply → Outcome
  swept : ℕ → Outcome
  done : Outcome

abbrev pub as_outcome : {A : Type 0} → (A → Outcome) → Action A → Action Outcome
as_outcome f a = a >>= λ r. ret (f r)

abbrev pub finish : Unit {0} → Outcome
finish _ = done

module _ (m : Mongoose) where
  unfoldable pub serve : Request → Action Outcome
  serve (buys user_id id quantity raw_key) =
      as_outcome replied (Checkout.buy m user_id id quantity raw_key)
  serve (reserves user_id id quantity raw_key) =
      as_outcome replied (Checkout.reserve m user_id id quantity raw_key)
  serve (confirms user_id id) = as_outcome answered (Holds.confirm m id user_id)
  serve (releases user_id id) = as_outcome answered (Holds.release m id user_id)
  serve sweeps = as_outcome swept (sweep_expired_reservations m)
  serve ticks = as_outcome finish (Sweeper.tick m)
  serve stops = as_outcome finish Sweeper.stop
  serve (processes force_fail id) = as_outcome finish (Pipeline.process m force_fail id)
  serve (fails attempts_made id reason) =
      as_outcome finish (Pipeline.on_failed m attempts_made id reason)
  serve (fulfills id) = as_outcome finish (Pipeline.fulfill m id)
  serve (notifies id) = as_outcome finish (Pipeline.notify m id)

  -- The id of a product is spelled as mongoose prints it.
  abbrev pub IsCanonical : String → Type 0
  IsCanonical id = (n : ℕ) × (id ≡ m.to_hex n)

  -- What the routes rely on and do not check: that a product's id is in canonical spelling.
  abbrev pub IsRegular : Request → Type 0
  IsRegular (buys user_id id quantity raw_key) = IsCanonical id
  IsRegular (reserves user_id id quantity raw_key) = IsCanonical id
  IsRegular (confirms user_id id) = Unit {0}
  IsRegular (releases user_id id) = Unit {0}
  IsRegular sweeps = Unit {0}
  IsRegular ticks = Unit {0}
  IsRegular stops = Unit {0}
  IsRegular (processes force_fail id) = Unit {0}
  IsRegular (fails attempts_made id reason) = Unit {0}
  IsRegular (fulfills id) = Unit {0}
  IsRegular (notifies id) = Unit {0}

-- The two functions that swallow the errors of their commands.
abbrev pub swallows : Request → Bool
swallows ticks = true
swallows (fails attempts_made id reason) = true
swallows _ = false
