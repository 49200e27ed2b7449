-- ===== src/Inventory/Concurrent.antt =====
-- Concurrent calls of `purchase` alone: what was sold, and what is left.
use flashkart.Base.{ℕ, ◌+◌, ◌≤◌, ◌≡◌, refl, Option, List, [], ◌∷◌, map, arith}
use flashkart.Runtime.{ret, throw, act, Result, Tick}
use flashkart.Runtime.Pool.{run}
use flashkart.Runtime.Ledger.{Covered, After, sum, run-Covered}
use flashkart.Store.{Mongoose, Product, World, Action}
use flashkart.Inventory.Account.{stock_account, pool_of, committed, IsSound, units}
use flashkart.Inventory.Purchases.{Purchased, purchase-Safe}
use flashkart.Inventory.{PurchaseResult, purchase}

-- A product's id and a quantity.
abbrev pub Buy : Type 0
Buy = ℕ × ℕ

module _ (m : Mongoose) (catalog : Option Product) (p : ℕ) where
  abbrev pub buyer : Buy → Action PurchaseResult
  buyer (id, qty) = purchase m (m.to_hex id) qty

  -- The units of product `p` that the calls which answered `ok` took.
  abbrev pub sold : List Buy → List (Action PurchaseResult) → ℕ
  sold ((id, qty) ∷ bs) (ret (PurchaseResult.ok n) ∷ ps) =
      units m catalog p (m.to_hex id) qty + sold bs ps
  sold ((id, qty) ∷ bs) (ret PurchaseResult.sold_out ∷ ps) = sold bs ps
  sold ((id, qty) ∷ bs) (ret PurchaseResult.not_found ∷ ps) = sold bs ps
  sold ((id, qty) ∷ bs) (throw e ∷ ps) = sold bs ps
  sold ((id, qty) ∷ bs) (act g k ∷ ps) = sold bs ps
  sold _ _ = 0

  abbrev pub AllSettled : List (Action PurchaseResult) → Type 0
  AllSettled [] = Unit {0}
  AllSettled (ret r ∷ ps) = AllSettled ps
  AllSettled (throw e ∷ ps) = AllSettled ps
  AllSettled (act g k ∷ ps) = ⊥

  abbrev Ends : Buy → Result PurchaseResult → ℕ → Type 0
  Ends (id, qty) = Purchased m catalog p id qty 0

  zeros : List Buy → List ℕ
  zeros [] = []
  zeros (b ∷ bs) = 0 ∷ zeros bs

  sum-zeros : (bs : List Buy) → sum (stock_account m catalog p) (zeros bs) ≡ 0
  unfolding zeros
  sum-zeros [] = refl
  sum-zeros (b ∷ bs) = omega (arith, sum-zeros bs)

  buyers-Covered :
      (bs : List Buy) → Covered (stock_account m catalog p) Ends bs (map buyer bs) (zeros bs)
  unfolding zeros
  buyers-Covered [] = tt
  buyers-Covered ((id, qty) ∷ bs) = (purchase-Safe m catalog p id qty 0, buyers-Covered bs)

  sold-le :
      (bs : List Buy) (ps : List (Action PurchaseResult)) (cs : List ℕ)
      → Covered (stock_account m catalog p) Ends bs ps cs
      → sold bs ps ≤ sum (stock_account m catalog p) cs
  sold-le [] [] [] v = omega arith
  sold-le ((id, qty) ∷ bs) (ret (PurchaseResult.ok n) ∷ ps) (c ∷ cs) v =
      omega (arith, v.0, sold-le bs ps cs v.1)
  sold-le ((id, qty) ∷ bs) (ret PurchaseResult.sold_out ∷ ps) (c ∷ cs) v =
      omega (arith, sold-le bs ps cs v.1)
  sold-le ((id, qty) ∷ bs) (ret PurchaseResult.not_found ∷ ps) (c ∷ cs) v =
      omega (arith, sold-le bs ps cs v.1)
  sold-le ((id, qty) ∷ bs) (throw e ∷ ps) (c ∷ cs) v = omega (arith, sold-le bs ps cs v.1)
  sold-le ((id, qty) ∷ bs) (act g k ∷ ps) (c ∷ cs) v = omega (arith, sold-le bs ps cs v.1)
  sold-le [] [] (c ∷ cs) v = absurd v
  sold-le [] (q ∷ ps) cs v = absurd v
  sold-le (b ∷ bs) [] cs v = absurd v
  sold-le (b ∷ bs) (q ∷ ps) [] v = absurd v

  sold-eq :
      (bs : List Buy) (ps : List (Action PurchaseResult)) (cs : List ℕ)
      → Covered (stock_account m catalog p) Ends bs ps cs
      → AllSettled ps
      → sold bs ps ≡ sum (stock_account m catalog p) cs
  sold-eq [] [] [] v h = refl
  sold-eq ((id, qty) ∷ bs) (ret (PurchaseResult.ok n) ∷ ps) (c ∷ cs) v h =
      omega (arith, v.0, sold-eq bs ps cs v.1 h)
  sold-eq ((id, qty) ∷ bs) (ret PurchaseResult.sold_out ∷ ps) (c ∷ cs) v h =
      omega (arith, v.0, sold-eq bs ps cs v.1 h)
  sold-eq ((id, qty) ∷ bs) (ret PurchaseResult.not_found ∷ ps) (c ∷ cs) v h =
      omega (arith, v.0, sold-eq bs ps cs v.1 h)
  sold-eq ((id, qty) ∷ bs) (throw e ∷ ps) (c ∷ cs) v h = omega (arith, v.0, sold-eq bs ps cs v.1 h)
  sold-eq ((id, qty) ∷ bs) (act g k ∷ ps) (c ∷ cs) v h = absurd h
  sold-eq [] [] (c ∷ cs) v h = absurd v
  sold-eq [] (q ∷ ps) cs v h = absurd v
  sold-eq (b ∷ bs) [] cs v h = absurd v
  sold-eq (b ∷ bs) (q ∷ ps) [] v h = absurd v

  module _ (bs : List Buy) (s : List (ℕ × Tick)) (w : World) (sound : IsSound m catalog p w) where
    abbrev pub outcome : List (Action PurchaseResult) × World
    outcome = run s (map buyer bs) w

    ledger :
        (cs : List ℕ) × After
          (stock_account m catalog p)
          (sum (stock_account m catalog p) (zeros bs))
          w
          (sum (stock_account m catalog p) cs)
          outcome.1
        × Covered (stock_account m catalog p) Ends bs outcome.0 cs
    ledger =
        run-Covered (stock_account m catalog p) Ends s bs (map buyer bs) (zeros bs) w
          (buyers-Covered bs) (sound, λ _. sum-zeros bs)

    -- From a sound store, at any moment of any interleaving of any calls of `purchase`, each for a
    -- product under the canonical spelling of its id: what the answered calls sold of a product, what is left of it and what is committed is at most what was
    -- left and committed at the start.
    pub sold_bounded :
        sold bs outcome.0 + pool_of m catalog p outcome.1 + committed p outcome.1
        ≤ pool_of m catalog p w + committed p w
    sold_bounded = omega (arith, ledger.1.1, sum-zeros bs, sold-le bs outcome.0 ledger.0 ledger.2)

    -- Once moreover every one of these calls, for products under canonical ids, has answered or failed,
    -- the two sums are equal: no call failed with
    -- units in hand, and each `ok` took its whole quantity.
    pub sold_exact :
        AllSettled outcome.0
        → sold bs outcome.0 + pool_of m catalog p outcome.1 + committed p outcome.1
          ≡ pool_of m catalog p w + committed p w
    sold_exact settled =
        omega (arith, ledger.1.1, sum-zeros bs, sold-eq bs outcome.0 ledger.0 ledger.2 settled)
