-- ===== src/Inventory/Commands/Neutral.antt =====
-- Functions that leave the account of a product alone.
use flashkart.Base.{ℕ, ◌≡◌, refl, Option, none, some}
use flashkart.Runtime.{act, fallible, ◌>>=◌, Err, Tick}
use flashkart.Runtime.Ledger.{Safe, Safe-bind, Safe-local, Safe-fallible}
use flashkart.Store.{Mongoose, Product, World, Action, cast}
use flashkart.Inventory.Account.{stock_account}
use flashkart.Inventory.Commands.{Kept}

module _ (m : Mongoose) (catalog : Option Product) (p : ℕ) where
  -- A function that moves no unit, on any way out.
  abbrev pub Neutral : {A : Type 0} → Action A → Type 0
  Neutral f = (c : ℕ) → Safe (stock_account m catalog p) (Kept m catalog p c) f c

  pub Neutral-bind :
      {A B : Type 0} (f : Action A) (g : A → Action B)
      → Neutral f
      → ((a : A) → Neutral (g a))
      → Neutral (f >>= g)
  Neutral-bind {A} f g nf ng c =
      Safe-bind (stock_account m catalog p) (Kept m catalog p {A = A} c) (Kept m catalog p c) f g c
        (nf c) (λ a c' h. rw h (ng a c)) (λ e c' h. h)

  pub Neutral-local :
      {A : Type 0} (k : Tick → World → Action A)
      → ((t : Tick) (w : World) → Neutral (k t w))
      → Neutral (act (λ t w. w) k)
  Neutral-local k nk c =
      Safe-local (stock_account m catalog p) (Kept m catalog p c) k c (λ t w. nk t w c)

  pub Neutral-cast :
      {A : Type 0} (o : Option ℕ) (f : ℕ → Action A)
      → ((n : ℕ) → Neutral (f n))
      → Neutral (cast o f)
  Neutral-cast none f nf c = refl
  Neutral-cast (some n) f nf c = nf n c

  -- A command that leaves the four fields of the account alone.
  pub Neutral-command :
      {A : Type 0} (e : Err) (f : Tick → World → A × World)
      → ((t : Tick) (w : World) → (f t w).1.stock ≡ w.stock)
      → ((t : Tick) (w : World) → (f t w).1.products ≡ w.products)
      → ((t : Tick) (w : World) → (f t w).1.reservations ≡ w.reservations)
      → ((t : Tick) (w : World) → (f t w).1.orders ≡ w.orders)
      → Neutral (fallible e f)
  Neutral-command e f same_stock same_products same_reservations same_orders c =
      Safe-fallible (stock_account m catalog p) (Kept m catalog p c) e f c refl λ t w b. (
        c,
        rw (same_stock t w, same_products t w, same_reservations t w, same_orders t w)
            (b.0, refl, (λ h. h), b.1),
        refl,
      )
