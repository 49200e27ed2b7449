-- ===== src/Shared/Replies.antt =====
-- The replies of api/src/routes/products.ts, which api/src/idempotency/idempotency.ts stores.
use flashkart.Base.{ℕ, String}

-- The bodies of the two replies.
pub data Body : Type 0 where
  pending_order : String → String → ℕ → ℕ → Body
  held_stock : String → String → ℕ → ℕ → ℕ → Body

-- `StoredResult`: a status and a body.
pub record Reply : Type 0 where
  pub status : ℕ
  pub body : Body
