-- ===== src/Web/View/Stages.antt =====
-- The stages that the page lights for an order, against the steps that the order took.
use flashkart.Base.{ℕ, suc, ◌+◌, ◌≡◌, refl, Bool, List, ◌∷◌, if◌then◌else◌, arith}
use mathlib.Core.List.{[] as nil}
use flashkart.Shared.Events.{OrderStatus, pending, failed, order_status_eq}
use flashkart.Runtime.Guarantee.{Reach, here, next}
use flashkart.Machine.{OrderStep, pays, ships, tells, fails}
use flashkart.Web.{OrderRow}
use flashkart.Web.View.{Progress, failure, stages, progress, lit_from, index_of}

abbrev pub count_lit : List (OrderStatus × Bool) → ℕ
count_lit nil = 0
count_lit ((s, b) ∷ ss) = (if b then 1 else 0) + count_lit ss

abbrev pub lit : Progress → ℕ
lit (failure text) = 0
lit (stages ss) = count_lit ss

abbrev pub steps : {s t : OrderStatus} → Reach OrderStep s t → ℕ
steps here = 0
steps (next r step) = suc (steps r)

-- A row with a status, and else like `o`.
abbrev pub at_status : OrderRow → OrderStatus → OrderRow
at_status o s = record o { status = s }

-- The page shows an order as failed, or lights one stage more than the steps that it took.
pub lit-progress :
    (o : OrderRow) {s : OrderStatus} (r : Reach OrderStep pending s)
    → lit (progress (at_status o s)) ≡ (if order_status_eq s failed then 0 else suc (steps r))
unfolding progress lit_from index_of order_status_eq
lit-progress o here = refl
lit-progress o (next r pays) = omega (arith, lit-progress o r)
lit-progress o (next r ships) = omega (arith, lit-progress o r)
lit-progress o (next r tells) = omega (arith, lit-progress o r)
lit-progress o (next r fails) = refl
