-- ===== src/Machine/Aside.antt =====
-- Functions that leave the stock, the catalog, the holds, the orders and their events alone: the
-- machine may make what they do, and they keep the account of a product.
use flashkart.Base.{ℕ, ◌≡◌, refl, Option, none, some}
use flashkart.Runtime.{Tick, Err, act, fallible}
use flashkart.Runtime.Ledger.{Before, After}
use flashkart.Runtime.Within.{Within, does, stops, Within-fallible, Within-Always, Within-Safe}
use flashkart.Store.{Mongoose, Product, World, Action, cast}
use flashkart.Inventory.Account.{stock_account}
use flashkart.Inventory.Commands.Neutral.{Neutral}
use flashkart.Machine.{aside}
use flashkart.Machine.Rules.{Lawful}

abbrev pub Aside : World → World → Type 0
Aside w w' =
    (w'.stock ≡ w.stock)
    × (w'.products ≡ w.products)
    × (w'.reservations ≡ w.reservations)
    × (w'.orders ≡ w.orders)
    × (w'.order_events ≡ w.order_events)

abbrev pub Elsewhere : {A : Type 0} → Action A → Type 0
Elsewhere f = Within Aside f

pub same : (w : World) → Aside w w
same w = (refl, refl, refl, refl, refl)

pub Elsewhere-command :
    {A : Type 0} (e : Err) (f : Tick → World → A × World)
    → ((t : Tick) (w : World) → Aside w (f t w).1)
    → Elsewhere (fallible e f)
Elsewhere-command e f h = Within-fallible e f same h

pub Elsewhere-read :
    {A : Type 0} (e : Err) (f : Tick → World → A) → Elsewhere (fallible e (λ t w. (f t w, w)))
Elsewhere-read e f = Elsewhere-command e _ (λ t w. same w)

pub Elsewhere-local :
    {A : Type 0} {k : Tick → World → Action A}
    → ((t : Tick) (w : World) → Elsewhere (k t w))
    → Elsewhere (act (λ t w. w) k)
Elsewhere-local h = does (λ t w. same w) h

pub Elsewhere-cast :
    {A : Type 0} {f : ℕ → Action A} (o : Option ℕ)
    → ((n : ℕ) → Elsewhere (f n))
    → Elsewhere (cast o f)
Elsewhere-cast none h = stops
Elsewhere-cast (some n) h = h n

pub Elsewhere-Lawful : {m : Mongoose} → {A : Type 0} {f : Action A} → Elsewhere f → Lawful m f
Elsewhere-Lawful h = Within-Always (λ w w' a. aside w' a) h

module _ (m : Mongoose) (catalog : Option Product) (p : ℕ) where
  Aside-After :
      (c : ℕ) (w w' : World)
      → Aside w w'
      → Before (stock_account m catalog p) c w
      → After (stock_account m catalog p) c w c w'
  Aside-After c w w' a b = rw (a.0, a.1, a.2, a.3) (b.0, refl, (λ h. h), b.1)

  pub Elsewhere-Neutral : {A : Type 0} {f : Action A} → Elsewhere f → Neutral m catalog p f
  Elsewhere-Neutral h = λ c. Within-Safe (stock_account m catalog p) c (Aside-After c) h
