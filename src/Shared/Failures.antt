-- ===== src/Shared/Failures.antt =====
-- packages/shared/src/errors.ts, the constructors of its errors.
use flashkart.Base.{String}
use flashkart.Shared.Errors.{AppError, ErrorCode}

abbrev pub bad_request : String → AppError
bad_request msg = record { code = ErrorCode.bad_request; message = msg; status = 400 }

abbrev pub unauthenticated : String → AppError
unauthenticated msg = record { code = ErrorCode.unauthenticated; message = msg; status = 401 }

abbrev pub forbidden : String → AppError
forbidden msg = record { code = ErrorCode.forbidden; message = msg; status = 403 }

abbrev pub not_found : String → AppError
not_found msg = record { code = ErrorCode.not_found; message = msg; status = 404 }

abbrev pub conflict : String → AppError
conflict msg = record { code = ErrorCode.conflict; message = msg; status = 409 }

abbrev pub sold_out : String → AppError
sold_out msg = record { code = ErrorCode.sold_out; message = msg; status = 409 }

abbrev pub reservation_expired : String → AppError
reservation_expired msg = record {
  code = ErrorCode.reservation_expired;
  message = msg;
  status = 410;
}

abbrev pub rate_limited : String → AppError
rate_limited msg = record { code = ErrorCode.rate_limited; message = msg; status = 429 }

abbrev pub internal : String → AppError
internal msg = record { code = ErrorCode.internal; message = msg; status = 500 }
