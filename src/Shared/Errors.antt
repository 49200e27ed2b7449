-- ===== src/Shared/Errors.antt =====
-- packages/shared/src/errors.ts. A message that a call leaves out is the default of the source;
-- the free-form `details` of an error are not modelled.
use flashkart.Base.{ℕ, String}

pub data ErrorCode : Type 0 where
  bad_request unauthenticated forbidden not_found conflict rate_limited : ErrorCode
  sold_out reservation_expired idempotency_replay : ErrorCode
  internal : ErrorCode

pub record AppError : Type 0 where
  pub code : ErrorCode
  pub message : String
  pub status : ℕ
