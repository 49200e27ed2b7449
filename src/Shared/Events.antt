-- ===== src/Shared/Events.antt =====
-- packages/shared/src/realtime.ts, queues.ts and roles.ts: the events that api and worker publish,
-- the statuses of an order, and the roles.
use flashkart.Base.{
  ℕ, ◌≡◌, arith, String, Bool, true, false, Option, none, some, str_eq, if◌then◌else◌,
}

pub data Role : Type 0 where
  buyer seller admin : Role

pub data StockEventReason : Type 0 where
  purchase reserve release sweep_expired : StockEventReason

pub record StockEvent : Type 0 where
  pub product_id : String
  pub remaining : ℕ
  pub reason : StockEventReason
  pub ts : ℕ

pub data OrderStatus : Type 0 where
  pending paid fulfilled confirmed failed : OrderStatus

pub record OrderEvent : Type 0 where
  pub order_id : String
  pub user_id : String
  pub status : OrderStatus
  pub ts : ℕ

-- `===` on statuses.
unfoldable pub order_status_eq : OrderStatus → OrderStatus → Bool
order_status_eq pending pending = true
order_status_eq paid paid = true
order_status_eq fulfilled fulfilled = true
order_status_eq confirmed confirmed = true
order_status_eq failed failed = true
order_status_eq _ _ = false

abbrev pub role_eq : Role → Role → Bool
role_eq buyer buyer = true
role_eq seller seller = true
role_eq admin admin = true
role_eq _ _ = false

-- `isRole`, with the role that a text names.
abbrev pub role_of : String → Option Role
role_of s =
    if str_eq s "buyer"
    then some buyer
    else if str_eq s "seller"
    then some seller
    else if str_eq s "admin"
    then some admin
    else none

pub order_status_eq→≡ : (s t : OrderStatus) → order_status_eq s t ≡ true → s ≡ t
unfolding order_status_eq
order_status_eq→≡ s t h = ground arith
