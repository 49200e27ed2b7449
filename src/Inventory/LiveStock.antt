-- ===== src/Inventory/LiveStock.antt =====
-- `getLiveStock`, run alone.
use flashkart.Base.{ℕ, ◌≡◌, refl, ap, ◌∙◌, false, Option, none, some, [], ◌∷◌}
use mathlib.Core.Option
use flashkart.Runtime.{ret, Tick, outcome, redis_error, mongo_error, lift, ◌>>=◌}
use flashkart.Runtime.Pool.{run_alone, advance}
use flashkart.Store.{Mongoose, World, Product, cast, mongo}
use flashkart.Inventory.{get_live_stock, or_catalog, find_product}

-- The counter, or else the catalog's stock.
abbrev pub live_or : Option ℕ → ℕ → ℕ
live_or (some n) stock = n
live_or none stock = stock

module _ (m : Mongoose) (id : ℕ) (p : Product) where
  catalog-alone :
      (t : Tick) (w : World) (counter : Option ℕ)
      → w.products id ≡ some p
      → t.fault ≡ false
      → run_alone (t ∷ []) (or_catalog m (m.to_hex id) counter) w
        ≡ (ret (some (live_or counter p.stock)), w)
  unfolding or_catalog find_product run_alone advance
  catalog-alone t w (some n) there answers = refl
  catalog-alone t w none there answers =
      ap
        (λ o.
          run_alone (t ∷ [])
            (cast o (λ id. mongo λ t w. (w.products id, w))
              >>= (λ product. ret (Option.map (λ p. p.stock) product)))
            w)
        (m.object_id-to_hex id)
      ∙ ap
          (λ b.
            let r = outcome mongo_error b (w.products id, w) w in
            (lift r.0 >>= (λ product. ret (Option.map (λ p. p.stock) product)), r.1))
          answers
      ∙ ap (λ o. (ret (Option.map (λ p. p.stock) o), w)) there

  -- A product of the catalog is shown with its counter, or else with the catalog's stock.
  pub get_live_stock-alone :
      (t t' : Tick) (w : World)
      → w.products id ≡ some p
      → t.fault ≡ false
      → t'.fault ≡ false
      → run_alone (t ∷ t' ∷ []) (get_live_stock m (m.to_hex id)) w
        ≡ (ret (some (live_or (w.stock (m.to_hex id)) p.stock)), w)
  unfolding get_live_stock run_alone advance
  get_live_stock-alone t t' w there answers answers' =
      ap
        (λ b.
          let r = outcome redis_error b (w.stock (m.to_hex id), w) w in
          run_alone (t' ∷ []) (lift r.0 >>= or_catalog m (m.to_hex id)) r.1)
        answers
      ∙ catalog-alone t' w (w.stock (m.to_hex id)) there answers'
