-- ===== src/Lib.antt =====
-- Flashkart: a flash-sale shop. Shoppers buy and reserve units of a product through an HTTP api,
-- a worker charges, ships and refunds, and Redis, Mongo and BullMQ queues hold what they share.
--
-- How the program is modelled. An async function of the source is a `Proc` (Runtime.antt): a tree
-- with one node for each awaited command, since another function may run at each await and nowhere
-- else. A command reads its environment from a `Tick` (the clock, whether it fails, what
-- `randomUUID`, a new ObjectId and `Math.random` give) and changes the store atomically. The store
-- is the record `World` (Store.antt). Requests that run at once are a pool of such functions, and an
-- interleaving is a list of steps that says which of them runs its next command, and in which
-- environment (Runtime/Pool.antt). The theorems on concurrent requests are about all such lists. A
-- failed command has no effect.
--
-- The parts, with the code that each models:
--   Shared: packages/shared/src (errors, events, roles).
--   Store: the documents of api/src/models and worker/src/models.ts, the Redis keys, the queues.
--   Inventory: api/src/inventory/inventory.ts and api/src/realtime/stockChannel.ts; the stock
--     counter and `purchase` in Inventory.antt, what it promises to one caller in Inventory/Sales.antt, the holds in Inventory/Reservations.antt.
--   Worker: worker/src/sweeper.ts (`tick`) in Worker/Sweeper.antt, and
--     worker/src/pipeline/orderPipeline.ts with payment.ts (`process`, `fulfill`, `notify`, `on_failed`,
--     `compensate_payment`) in Worker/Pipeline.antt.
--   Idempotency: `withIdempotency` of api/src/idempotency/idempotency.ts.
--   RateLimit: `checkRate` and `rateLimit` of api/src/rateLimit.
--   Auth: api/src/auth, api/src/middleware/requireAuth.ts and api/src/routes/auth.ts; the schemas and
--     the cookie of the routes in Auth/Entry.antt.
--   Routes: api/src/routes/products.ts (Products, Checkout, Catalog, Gate), reservations.ts (Holds),
--     orders.ts (Orders), health.ts, and api/src/middleware/error.ts.
--   Api: `createApp` of api/src/app.ts: the limiter of all routes and that of the sign-in, `requireAuth`, the
--     handler of each route and the error middleware, composed in Api.antt. Api/Work.antt adds the
--     jobs of the worker and the timers, so that a list of these is the whole system at work.
--   Realtime: the rooms of api/src/realtime/socket.ts.
--   Web: the page of web/src/App.tsx: its state and the socket's listeners in Web.antt, the requests
--     (`apiFetch`, the refresh at the start, the loading) in Web/Session.antt, `buy` in Web/Buying.antt,
--     what is shown in Web/View.antt, `AuthPanel` in Web/SignIn.antt.
--   Scripts: the two buyers of api/src/scripts/oversellDemo.ts, and the swarm of them.
--   Config: `redactUri` of api/src/db/mongo.ts.
--   Processes: the boot, the signal handlers and the shutdown of api/src/index.ts, and of
--     worker/src/index.ts in Processes/Jobs.antt.
--   Machine: the shop as an abstract machine: the steps of a hold's and an order's status, and the
--     changes that one command may make. The `Guarantees` modules of the parts tie the code to it.
--   System: every request, job and timer that touches the stock, as one type.
--   Tests: a small shop, with the theorems applied to it.
--
-- How the proofs go. Runtime/Ledger.antt gives a logic for accounts: a pending function owns a
-- number of units, each of its commands moves units between the store and what it owns, and
-- `Safe` says so of a function with a postcondition. Inventory/Account.antt counts the units of a
-- product: in the pool of its Redis key (or in the catalog before the first purchase), in
-- reservations that are held or confirmed, and in orders that are not failed. Each operation is
-- proved safe once, against any others that run between its commands, and `run-Covered` adds them up.
-- Runtime/Guarantee.antt is the logic for steps: `Guar` says that each command of a function, whatever
-- steps others make before it, makes a step of a relation, and what is known of its result. Runtime/Within.antt is
-- the case in which no step of others matters, and Runtime/Shares.antt an account with a fixed total,
-- for calls that exclude each other: the lock of an idempotency key (Idempotency/Exclusion.antt).
-- Runtime/Settling.antt says what a pool owns once all its functions ended. Runtime/Finishing.antt counts the commands of a function
-- and what they cost.
--
-- Parameters. mongoose (`object_id`, `is_valid_object_id`, `to_hex`, of which it is assumed that a
-- printed id casts back), jsonwebtoken (that a token verifies under its secret until it expires and
-- under no other), bcrypt and zod are arguments. So are, for the page, the network with the api behind it
-- (`fetch`), the text of an error and `crypto.randomUUID`.
--
-- Bounds and fuel. The loops of the sweepers have the bound of the source, 100 rounds. The poll of
-- `withIdempotency` has 201 rounds: a round waits for 25 ms at least, so the deadline of 5000 ms
-- comes before they are used up. Numbers are natural numbers; the refill rate of a bucket is a
-- fraction, in units in which the script's arithmetic is exact, so the rounding of Lua's doubles, which can refuse a caller that comes just in time, is
-- left out.
--
-- Not modelled: the markup of the page and its price format, configuration and logging, the seeds and demonstration
-- scripts besides the two buyers, `details` of errors, timestamps, and the
-- retry and backoff of BullMQ, which may repeat a job any number of times here.
mod Base
pub mod Shared
pub mod Runtime
pub mod Store
pub mod Inventory
pub mod Worker
pub mod RateLimit
pub mod Auth
pub mod Idempotency
pub mod Routes
pub mod Realtime
pub mod Api
pub mod Scripts
pub mod Web
pub mod Config
pub mod Processes
pub mod Machine
pub mod System
pub mod Tests
