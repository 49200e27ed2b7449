-- ===== src/Store.antt =====
-- The shared state: the Redis keys, the Mongo collections and the queues that api and worker use
-- (api/src/models, worker/src/models.ts, worker/src/sweeper.ts), with the commands on them.
pub mod Updates
use flashkart.Base.{
  ℕ, ◌+◌, ◌≡◌, Bool, true, false, ◌&&◌, String, Option, none, some, List, [], ◌∷◌, ◌==◌, ltb,
  str_eq, if◌then◌else◌,
}
use flashkart.Shared.Events.{StockEvent, OrderEvent, OrderStatus, Role}
use flashkart.Shared.Replies.{Reply}
use flashkart.Runtime.{
  Proc, ret, throw, act, Tick, Result, ok, err, Err, redis_error, mongo_error, queue_error, command,
  fallible, ◌>>=◌, ◌>>◌,
}

-- What the program relies on of mongoose: the ObjectId that a text casts to, the check that routes
-- make first, and `toString()`, whose result casts back.
pub record Mongoose : Type 0 where
  pub object_id : String → Option ℕ
  pub is_valid_object_id : String → Bool
  pub to_hex : ℕ → String
  pub object_id-to_hex : (n : ℕ) → object_id (to_hex n) ≡ some n

pub record Product : Type 0 where
  pub name : String
  pub price_paise : ℕ
  pub stock : ℕ
  pub active : Bool

pub data ReservationStatus : Type 0 where
  held confirmed expired released : ReservationStatus

pub record Reservation : Type 0 where
  pub id : ℕ
  pub product_id : ℕ
  pub user_id : Option ℕ
  pub quantity : ℕ
  pub status : ReservationStatus
  pub expires_at : ℕ

pub record Order : Type 0 where
  pub id : ℕ
  pub user_id : ℕ
  pub product_id : ℕ
  pub quantity : ℕ
  pub unit_price_paise : ℕ
  pub total_paise : ℕ
  pub status : OrderStatus
  pub payment_attempts : ℕ
  pub failure_reason : Option Err

pub record User : Type 0 where
  pub id : ℕ
  pub email : String
  pub name : String
  pub password_hash : String
  pub role : Role
  pub active : Bool

-- What an idempotency key holds, `none` being `__pending__`, and when it expires.
pub record IdemEntry : Type 0 where
  pub result : Option Reply
  pub expires_at : ℕ

unfoldable pub is_held : ReservationStatus → Bool
is_held held = true
is_held _ = false

-- `stock` holds the keys `stock:<id>`, by the text of the id.
pub record World : Type 0 where
  pub stock : String → Option ℕ
  pub products : ℕ → Option Product
  pub reservations : List Reservation
  pub orders : List Order
  pub stock_events : List StockEvent
  pub order_events : List OrderEvent
  pub process_jobs : List String
  pub fulfill_jobs : List String
  pub notify_jobs : List String
  -- `refresh:<user>:<family>`: the active token id, and when the key expires.
  pub sessions : String → ℕ → Option (ℕ × ℕ)
  pub users : List User
  -- `idem:<key>`
  pub idem : String → Option IdemEntry
  pub sweeper_stopped : Bool
  pub sweeper_inflight : Bool

abbrev pub Action : Type 0 → Type 0
Action A = Proc World A

-- `Date.now()`
abbrev pub date_now : Action ℕ
date_now = act (λ t w. w) (λ t w. ret t.now)

-- A wait for a timer.
abbrev pub sleep : Action (Unit {0})
sleep = act (λ t w. w) (λ t w. ret tt)

module _ {ℓ} {A : Type ℓ} where
  -- `findOneAndUpdate(p, u, {new: true})`: the first match changes, and is returned as it is then.
  unfoldable pub find_one_and_update : (A → Bool) → (A → A) → List A → Option A
  find_one_and_update p u [] = none
  find_one_and_update p u (x ∷ xs) = if p x then some (u x) else find_one_and_update p u xs

  unfoldable pub update_one : (A → Bool) → (A → A) → List A → List A
  update_one p u [] = []
  update_one p u (x ∷ xs) = if p x then u x ∷ xs else x ∷ update_one p u xs

  unfoldable pub find_one : (A → Bool) → List A → Option A
  find_one p [] = none
  find_one p (x ∷ xs) = if p x then some x else find_one p xs

abbrev pub put_key {ℓ} : {V : Type ℓ} → (String → Option V) → String → V → String → Option V
put_key f k v j = if str_eq k j then some v else f j

-- A command on Redis, Mongo or a queue, with its way to fail.
abbrev pub redis : {A : Type 0} → (Tick → World → A × World) → Action A
redis = fallible redis_error

abbrev pub mongo : {A : Type 0} → (Tick → World → A × World) → Action A
mongo = fallible mongo_error

abbrev pub queue : {A : Type 0} → (Tick → World → A × World) → Action A
queue = fallible queue_error

-- A text where mongoose wants an ObjectId: it casts, or the call rejects with a `CastError`.
abbrev pub cast : {A : Type 0} → Option ℕ → (ℕ → Action A) → Action A
cast none f = throw mongo_error
cast (some n) f = f n
