-- ===== src/Routes/Orders/Ownership.antt =====
-- Which orders a buyer sees under `GET /mine`.
use flashkart.Base.{
  ℕ, zero, suc, ◌≡◌, ◌⊎◌, refl, ap, false, String, some, List, [], ◌∷◌, ◌++◌, ◌==◌, Bool-cases, inl,
  inr, ◌≤◌, arith, length, if◌then◌else◌,
}
use flashkart.Runtime.{ret, Tick}
use flashkart.Runtime.Pool.{run_alone, advance}
use flashkart.Store.{Mongoose, World, Order}
use flashkart.Routes.Orders.{orders_of, mine, page}

-- All orders of a user, in the order of the store.
abbrev pub all_of : ℕ → List Order → List Order
all_of user_id [] = []
all_of user_id (o ∷ os) = if o.user_id == user_id then o ∷ all_of user_id os else all_of user_id os

-- The first ones of the list, at most `n`, and all of them unless there are `n`.
abbrev pub IsPage : ℕ → List Order → List Order → Type 0
IsPage n listed all =
    (rest : List Order) × (listed ++ rest ≡ all)
    × (length listed ≤ n)
    × ((rest ≡ []) ⊎ (length listed ≡ n))

IsPage-more :
    (n : ℕ) (o : Order) (listed all : List Order)
    → IsPage n listed all
    → IsPage (suc n) (o ∷ listed) (o ∷ all)
IsPage-more n o listed all h = (
  h.0,
  ap (λ l. o ∷ l) h.1,
  omega (arith, h.2),
  elim h.3 [ inl e ↦ inl e | inr e ↦ inr (omega (arith, e)) ],
)

orders_of-IsPage :
    (n user_id : ℕ) (os : List Order) → IsPage n (orders_of n user_id os) (all_of user_id os)
unfolding orders_of
orders_of-IsPage zero user_id os = (all_of user_id os, refl, omega arith, inr refl)
orders_of-IsPage (suc n) user_id [] = ([], refl, omega arith, inl refl)
orders_of-IsPage (suc n) user_id (o ∷ os) = elim (Bool-cases (o.user_id == user_id)) [
  | inl e ↦ rw e (IsPage-more n o _ _ (orders_of-IsPage n user_id os))
  | inr e ↦ rw e (orders_of-IsPage (suc n) user_id os)
]

-- When Mongo answers, `GET /mine` answers a user, known by an id that casts, with the newest 50 of
-- all the user's own orders, or with all of them if they are fewer, newest first, and changes nothing.
pub mine-IsPage :
    (m : Mongoose) (user_id : String) (id : ℕ) (t : Tick) (w : World)
    → m.object_id user_id ≡ some id
    → t.fault ≡ false
    → (listed : List Order) × (run_alone (t ∷ []) (mine m user_id) w ≡ (ret listed, w))
      × IsPage 50 listed (all_of id w.orders)
unfolding mine run_alone advance
mine-IsPage m user_id id t w known answers =
    (orders_of page id w.orders, rw (known, answers) refl, orders_of-IsPage page id w.orders)
