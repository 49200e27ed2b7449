-- ===== src/Runtime.antt =====
-- What the TypeScript runtime gives the program: an async function runs up to its next awaited
-- command on Redis, Mongo, BullMQ or a third party, and any other pending function may run before
-- it resumes. `Proc` is such a function, one `act` for each awaited command; the store executes a
-- command atomically. What the source reads of its environment at a command comes in a `Tick`.
pub mod Pool
pub mod Ledger
pub mod Endings
pub mod Guarantee
pub mod Finishing
pub mod Within
pub mod Settling
pub mod Shares
use flashkart.Base.{ℕ, Bool, true, false, String}
use flashkart.Shared.Errors.{AppError}

-- Why an async function rejects: a command that failed, an `AppError`, or another `Error`.
pub data Err : Type 0 where
  redis_error mongo_error queue_error : Err
  app : AppError → Err
  error : String → Err

pub data Result (A : Type 0) : Type 0 where
  ok : A → Result A
  err : Err → Result A

-- The environment at one command: the clock in milliseconds, whether the command fails, the value
-- that `randomUUID`, an ObjectId or a signature would be made from, and `Math.random()` in
-- millionths.
pub record Tick : Type 0 where
  pub now : ℕ
  pub fault : Bool
  pub fresh : ℕ
  pub random : ℕ

pub data Proc (W A : Type 0) : Type 0 where
  ret : A → Proc W A
  throw : Err → Proc W A
  act : (Tick → W → W) → (Tick → W → Proc W A) → Proc W A

module _ {W A : Type 0} where
  abbrev pub lift : Result A → Proc W A
  lift (ok a) = ret a
  lift (err e) = throw e

  -- One awaited command, which answers or fails.
  abbrev pub command : (Tick → W → Result A × W) → Proc W A
  command f = act (λ t w. (f t w).1) (λ t w. lift (f t w).0)

  abbrev pub outcome : Err → Bool → A × W → W → Result A × W
  outcome e true r w = (err e, w)
  outcome e false r w = (ok r.0, r.1)

  -- A command that fails with `e`, and then has no effect, when the environment says so.
  abbrev pub fallible : Err → (Tick → W → A × W) → Proc W A
  fallible e f = command λ t w. outcome e t.fault (f t w) w

infixl 5 ◌>>=◌ ◌>>◌
abbrev pub ◌>>=◌ : {W A B : Type 0} → Proc W A → (A → Proc W B) → Proc W B
ret a >>= f = f a
throw e >>= f = throw e
act g k >>= f = act g (λ t w. k t w >>= f)

abbrev pub ◌>>◌ : {W B : Type 0} → Proc W (Unit {0}) → Proc W B → Proc W B
m >> n = m >>= λ _. n

-- `try { m } catch (e) { h e }`
abbrev pub try_catch : {W A : Type 0} → Proc W A → (Err → Proc W A) → Proc W A
try_catch (ret a) h = ret a
try_catch (throw e) h = h e
try_catch (act g k) h = act g (λ t w. try_catch (k t w) h)
