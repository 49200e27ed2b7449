-- ===== src/Routes.antt =====
-- api/src/routes: what the handlers do once the request is authenticated, and the gate before them.
pub mod Gate
pub mod Products
pub mod Catalog
pub mod Checkout
pub mod Holds
pub mod Orders
pub mod Reading
use flashkart.Base.{ℕ, Bool, ◌&&◌, if◌then◌else◌}
use flashkart.Shared.Errors.{AppError}
use flashkart.Shared.Failures
use flashkart.Runtime.{Err, app, error, redis_error, mongo_error, queue_error}

-- `errorMiddleware` of api/src/middleware/error.ts: what the client sees of an error.
abbrev pub error_reply : Err → AppError
error_reply (app e) = e
error_reply redis_error = Failures.internal "Internal error"
error_reply mongo_error = Failures.internal "Internal error"
error_reply queue_error = Failures.internal "Internal error"
error_reply (error msg) = Failures.internal "Internal error"

-- `GET /ready` of api/src/routes/health.ts: the status, and whether Mongo and Redis answer.
abbrev pub ready : Bool → Bool → ℕ × Bool × Bool
ready mongo_ok redis_ok = (if mongo_ok && redis_ok then 200 else 503, mongo_ok, redis_ok)
