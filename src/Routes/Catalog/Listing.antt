-- ===== src/Routes/Catalog/Listing.antt =====
-- The list of products shows what the view of each product shows.
use flashkart.Base.{ℕ, ◌≡◌, true, false, Option, none, some, List, [], ◌∷◌, map}
use flashkart.Runtime.{ret, Tick}
use flashkart.Runtime.Pool.{run_alone}
use flashkart.Store.{Mongoose, World, Product}
use flashkart.Inventory.{get_live_stock}

-- Of the ids in Mongo, those of the products that are there and active, in that order.
pub data ListsActive (products : ℕ → Option Product) : List ℕ → List ℕ → Type 0 where
  ends : ListsActive products [] []
  missing :
      {id : ℕ} {ids listed : List ℕ}
      → products id ≡ none
      → ListsActive products ids listed
      → ListsActive products (id ∷ ids) listed
  withdrawn :
      {id : ℕ} {ids listed : List ℕ} (p : Product)
      → products id ≡ some p
      → p.active ≡ false
      → ListsActive products ids listed
      → ListsActive products (id ∷ ids) listed
  lists :
      {id : ℕ} {ids listed : List ℕ} (p : Product)
      → products id ≡ some p
      → p.active ≡ true
      → ListsActive products ids listed
      → ListsActive products (id ∷ ids) (id ∷ listed)

abbrev pub ids_of : List (ℕ × Product) → List ℕ
ids_of ps = map (λ e. e.0) ps

module _ (m : Mongoose) where
  abbrev counters : World → List (ℕ × Product) → List (Option ℕ)
  counters w ps = map (λ e. w.stock (m.to_hex e.0)) ps

  -- The view of this product, alone and at the same store, tells the same stock.
  abbrev pub Agrees : Tick → Tick → World → ℕ × Product → Type 0
  Agrees t t' w (id, p) =
      run_alone (t ∷ t' ∷ []) (get_live_stock m (m.to_hex id)) w ≡ (ret (some p.stock), w)
