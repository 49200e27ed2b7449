-- ===== src/Inventory/Sales.antt =====
-- What `purchase` promises to one caller: a sale from the units of a product, wherever they are kept.
use flashkart.Base.{
  ap, ◌∙◌, sym, subst, ℕ, ◌-◌, ◌≡◌, refl, Bool, true, false, Bool-cases, inl, inr, String, Option,
  none, some, List, ◌∷◌, ltb, str_eq, eq_refl, if◌then◌else◌,
}
use flashkart.Runtime.{Tick, ret, outcome, lift, redis_error, mongo_error, ◌>>=◌}
use flashkart.Runtime.Pool.{run_alone, advance}
use flashkart.Runtime.Finishing.{run_alone-ret}
use flashkart.Store.{Mongoose, World, Product, Action, cast, mongo}
use flashkart.Inventory.{
  BuyReply, remaining, short, unprimed, write_stock, PurchaseResult, sold_out, not_found, purchase,
  buy_stock, buy_lua, stock_after, after_first, prime_from_mongo, prime, find_product, set_nx,
  claim, retry, settle, publish_stock_update, emit_stock,
}

-- What the catalog offers of a product.
abbrev pub offered : Option Product → Option ℕ
offered none = none
offered (some p) = if p.active then some p.stock else none

-- The units for sale: what the counter says, or what the catalog offers as long as there is none.
abbrev pub for_sale : Option ℕ → Option Product → Option ℕ
for_sale (some n) product = some n
for_sale none product = offered product

-- A sale in one step: the answer, and what is for sale then.
abbrev pub sell : Option ℕ → ℕ → PurchaseResult × Option ℕ
sell none qty = (not_found, none)
sell (some n) qty =
    if ltb n qty then (sold_out, some n) else (PurchaseResult.ok (n - qty), some (n - qty))

abbrev answer : BuyReply → PurchaseResult
answer unprimed = not_found
answer short = sold_out
answer (remaining n) = PurchaseResult.ok n

buy_stock-alone :
    {A : Type 0} (key : String) (qty : ℕ) (k : BuyReply → Action A) (t : Tick) (ts : List Tick)
    (w : World) (o : Option ℕ)
    → t.fault ≡ false
    → w.stock key ≡ o
    → run_alone (t ∷ ts) (buy_stock key qty >>= k) w
      ≡ run_alone ts (k (buy_lua o qty)) (write_stock w key (stock_after (buy_lua o qty) o))
unfolding buy_stock run_alone advance
buy_stock-alone key qty k t ts w o up e =
    let reply = buy_lua (w.stock key) qty in
    ap
      (λ b.
        let r =
          outcome redis_error b (reply, write_stock w key (stock_after reply (w.stock key))) w in
        run_alone ts (lift r.0 >>= k) r.1)
      up
    ∙ ap (λ o. run_alone ts (k (buy_lua o qty)) (write_stock w key (stock_after (buy_lua o qty) o)))
        e

set_nx-alone :
    {A B : Type 0} (key : String) (n : ℕ) (f : Bool → Action A) (k : A → Action B) (t : Tick)
    (ts : List Tick) (w : World)
    → t.fault ≡ false
    → w.stock key ≡ none
    → run_alone (t ∷ ts) ((set_nx key n >>= f) >>= k) w
      ≡ run_alone ts (f true >>= k) (write_stock w key (some n))
unfolding set_nx claim run_alone advance
set_nx-alone key n f k t ts w up e =
    ap
      (λ b.
        let r = outcome redis_error b (claim key n (w.stock key) w) w in
        run_alone ts ((lift r.0 >>= f) >>= k) r.1)
      up
    ∙ ap (λ o. run_alone ts (f (claim key n o w).0 >>= k) (claim key n o w).1) e

find_product-alone :
    {A B : Type 0} (m : Mongoose) (id : ℕ) (f : Option Product → Action A) (k : A → Action B)
    (t : Tick) (ts : List Tick) (w : World)
    → t.fault ≡ false
    → run_alone (t ∷ ts) ((find_product m (m.to_hex id) >>= f) >>= k) w
      ≡ run_alone ts (f (w.products id) >>= k) w
unfolding find_product run_alone advance
find_product-alone m id f k t ts w up =
    ap (λ o. run_alone (t ∷ ts) ((cast o (λ i. mongo λ t w. (w.products i, w)) >>= f) >>= k) w)
      (m.object_id-to_hex id)
    ∙ ap
        (λ b.
          let r = outcome mongo_error b (w.products id, w) w in
          run_alone ts ((lift r.0 >>= f) >>= k) r.1)
        up

-- The event of a sale changes neither counters nor catalog.
settle-alone :
    (m : Mongoose) (product_id : String) (reply : BuyReply) (t : Tick) (ts : List Tick) (w : World)
    → t.fault ≡ false
    → let r = run_alone (t ∷ ts) (settle m product_id reply) w in
      (r.0 ≡ ret (answer reply)) × (r.1.stock ≡ w.stock) × (r.1.products ≡ w.products)
unfolding settle publish_stock_update emit_stock run_alone advance
settle-alone m product_id unprimed t ts w up = rw (run_alone-ret ts not_found w) (refl, refl, refl)
settle-alone m product_id short t ts w up = rw (run_alone-ret ts sold_out w) (refl, refl, refl)
settle-alone m product_id (remaining n) t ts w up =
    rw (up, run_alone-ret ts (PurchaseResult.ok n) _) (refl, refl, refl)

module _ (m : Mongoose) (id qty : ℕ) where
  abbrev key : String
  key = m.to_hex id

  abbrev pub units_of : World → Option ℕ
  units_of w = for_sale (w.stock (m.to_hex id)) (w.products id)

  -- An answer and what is for sale then, with the catalog and all other counters as before.
  abbrev pub Sells : World → PurchaseResult × Option ℕ → Action PurchaseResult × World → Type 0
  Sells w s r =
      (r.0 ≡ ret s.0)
      × (units_of r.1 ≡ s.1)
      × (r.1.products ≡ w.products)
      × ((k : String) → str_eq (m.to_hex id) k ≡ false → r.1.stock k ≡ w.stock k)

  settle-Sells :
      (reply : BuyReply) (n : ℕ) (t : Tick) (ts : List Tick) (w : World)
      → t.fault ≡ false
      → Sells w
          (answer reply, some n)
          (run_alone (t ∷ ts) (settle m key reply) (write_stock w key (some n)))
  settle-Sells reply n t ts w up =
      let v = write_stock w key (some n) in
      let r = run_alone (t ∷ ts) (settle m key reply) v in
      let s = settle-alone m key reply t ts v up in
      let written : v.stock key ≡ some n = rw (eq_refl key) refl in
      (
        s.0,
        ap (λ o. for_sale o (r.1.products id))
            (ap (λ (f : String → Option ℕ). f key) s.1 ∙ written),
        s.2,
        (λ k other. ap (λ (f : String → Option ℕ). f k) s.1 ∙ (rw other refl)),
      )

  script-Sells :
      (n : ℕ) (t t' : Tick) (ts : List Tick) (w : World)
      → t.fault ≡ false
      → t'.fault ≡ false
      → w.stock key ≡ some n
      → Sells w (sell (some n) qty) (run_alone (t ∷ t' ∷ ts) (buy_stock key qty >>= settle m key) w)
  unfolding buy_lua stock_after
  script-Sells n t t' ts w up up' e =
      subst (Sells w (sell (some n) qty))
        (sym (buy_stock-alone key qty (settle m key) t (t' ∷ ts) w (some n) up e))
        (elim (Bool-cases (ltb n qty)) [
          | inl h ↦ rw h (settle-Sells short n t' ts w up')
          | inr h ↦ rw h (settle-Sells (remaining (n - qty)) (n - qty) t' ts w up')
        ])

  nothing-Sells :
      (ts : List Tick) (w : World)
      → units_of w ≡ none
      → Sells w (not_found, none) (run_alone ts (ret not_found) w)
  nothing-Sells ts w e = rw (run_alone-ret ts not_found w) (refl, e, refl, (λ k other. refl))

  -- From here on the key is missing.
  retry-Sells :
      (n : ℕ) (t t' : Tick) (ts : List Tick) (w : World)
      → t.fault ≡ false
      → t'.fault ≡ false
      → Sells w
          (sell (some n) qty)
          (run_alone (t ∷ t' ∷ ts) (retry m key qty true) (write_stock w key (some n)))
  unfolding retry
  retry-Sells n t t' ts w up up' =
      let v = write_stock w key (some n) in
      let s = script-Sells n t t' ts v up up' (rw (eq_refl key) refl) in
      (s.0, s.1, s.2, (λ k other. s.3 k other ∙ rw other refl))

  prime-Sells :
      (o : Option Product) (t t' t'' : Tick) (ts : List Tick) (w : World)
      → (t.fault ≡ false) × (t'.fault ≡ false) × (t''.fault ≡ false)
      → w.stock key ≡ none
      → w.products id ≡ o
      → Sells w
          (sell (offered o) qty)
          (run_alone (t ∷ t' ∷ t'' ∷ ts) (prime m key o >>= retry m key qty) w)
  unfolding prime retry
  prime-Sells none t t' t'' ts w up e f = nothing-Sells (t ∷ t' ∷ t'' ∷ ts) w (rw (e, f) refl)
  prime-Sells (some p) t t' t'' ts w up e f = elim (Bool-cases p.active) [
    | inl a ↦ rw a (
        subst (Sells w (sell (some p.stock) qty))
          (sym
            (set_nx-alone key p.stock (λ _. ret true) (retry m key qty) t (t' ∷ t'' ∷ ts) w up.0 e))
          (retry-Sells p.stock t' t'' ts w up.1 up.2))
    | inr a ↦ rw a (nothing-Sells (t ∷ t' ∷ t'' ∷ ts) w (rw (e, f, a) refl))
  ]

  first-Sells :
      (o : Option ℕ) (t₁ t₂ t₃ t₄ t₅ : Tick) (ts : List Tick) (w : World)
      → (t₁.fault ≡ false)
        × (t₂.fault ≡ false)
        × (t₃.fault ≡ false)
        × (t₄.fault ≡ false)
        × (t₅.fault ≡ false)
      → w.stock key ≡ o
      → Sells w
          (sell (for_sale o (w.products id)) qty)
          (run_alone (t₁ ∷ t₂ ∷ t₃ ∷ t₄ ∷ t₅ ∷ ts) (purchase m key qty) w)
  unfolding purchase after_first prime_from_mongo buy_lua stock_after
  first-Sells none t₁ t₂ t₃ t₄ t₅ ts w up e =
      let later : List Tick = t₃ ∷ t₄ ∷ t₅ ∷ ts in
      subst (Sells w (sell (offered (w.products id)) qty))
        (sym (
          buy_stock-alone key qty (after_first m key qty) t₁ (t₂ ∷ later) w none up.0 e
          ∙ find_product-alone m id (prime m key) (retry m key qty) t₂ later w up.1))
        (prime-Sells (w.products id) t₃ t₄ t₅ ts w (up.2, up.3, up.4) e refl)
  first-Sells (some n) t₁ t₂ t₃ t₄ t₅ ts w up e =
      let later : List Tick = t₃ ∷ t₄ ∷ t₅ ∷ ts in
      subst (Sells w (sell (some n) qty))
        (sym (buy_stock-alone key qty (after_first m key qty) t₁ (t₂ ∷ later) w (some n) up.0 e))
        (elim (Bool-cases (ltb n qty)) [
          | inl h ↦ rw h (settle-Sells short n t₂ later w up.1)
          | inr h ↦ rw h (settle-Sells (remaining (n - qty)) (n - qty) t₂ later w up.1)
        ])

  -- When no command fails and nothing comes in between, `purchase` of a product under the canonical
  -- spelling of its id answers what the sale in one step answers, and leaves for sale what that
  -- leaves, whether the counter was there, had to be primed from the catalog, or there was nothing to
  -- prime it from; the catalog and the counters of all other ids stay as they were.
  pub purchase-Sells :
      (t₁ t₂ t₃ t₄ t₅ : Tick) (ts : List Tick) (w : World)
      → (t₁.fault ≡ false)
        × (t₂.fault ≡ false)
        × (t₃.fault ≡ false)
        × (t₄.fault ≡ false)
        × (t₅.fault ≡ false)
      → Sells w
          (sell (units_of w) qty)
          (run_alone (t₁ ∷ t₂ ∷ t₃ ∷ t₄ ∷ t₅ ∷ ts) (purchase m (m.to_hex id) qty) w)
  purchase-Sells t₁ t₂ t₃ t₄ t₅ ts w up = first-Sells (w.stock key) t₁ t₂ t₃ t₄ t₅ ts w up refl
