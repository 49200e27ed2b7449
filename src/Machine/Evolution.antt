-- ===== src/Machine/Evolution.antt =====
-- Lists of documents that grow at the front, and whose entries move on.
use mathlib.Core.Option.{some_inj}
use flashkart.Base.{
  refl, some, subst, sym, if◌then◌else◌, arith, ◌≡◌, Bool, true, false, List, [], ◌∷◌, Bool-cases,
  inl, inr,
}
use flashkart.Store.{update_one, find_one_and_update}

-- Every old entry is still there, in its place, moved on by `E`; every other one is new.
pub data Evolves {A : Type 0} (E : A → A → Type 0) (N : A → Type 0) : List A → List A → Type 0 where
  nothing : Evolves E N [] []
  old : {x y : A} {xs ys : List A} → E x y → Evolves E N xs ys → Evolves E N (x ∷ xs) (y ∷ ys)
  new : {y : A} {xs ys : List A} → N y → Evolves E N xs ys → Evolves E N xs (y ∷ ys)

pub data Mem {A : Type 0} (x : A) : List A → Type 0 where
  first : {xs : List A} → Mem x (x ∷ xs)
  later : {y : A} {xs : List A} → Mem x xs → Mem x (y ∷ xs)

-- What an update found is in the updated list.
pub find_one_and_update-Mem :
    {A : Type 0} (p : A → Bool) (u : A → A) (xs : List A) (y : A)
    → find_one_and_update p u xs ≡ some y
    → Mem y (update_one p u xs) × ((x : A) × (p x ≡ true) × (y ≡ u x))
unfolding find_one_and_update update_one
find_one_and_update-Mem p u [] y e = grind arith
find_one_and_update-Mem {A} p u (x ∷ xs) y e =
    found (p x) refl (λ e'. find_one_and_update-Mem p u xs y e') e
  where
    found :
        (b : Bool)
        → p x ≡ b
        → (find_one_and_update p u xs ≡ some y
            → Mem y (update_one p u xs) × ((x : A) × (p x ≡ true) × (y ≡ u x)))
        → (if b then some (u x) else find_one_and_update p u xs) ≡ some y
        → Mem y (if b then u x ∷ xs else x ∷ update_one p u xs)
          × ((x : A) × (p x ≡ true) × (y ≡ u x))
    found true h rest e =
        (subst (λ z. Mem z (u x ∷ xs)) (some_inj.0 e) first, (x, h, sym (some_inj.0 e)))
    found false h rest e = let r = rest e in (later r.0, r.1)

module _ {A : Type 0} {E : A → A → Type 0} {N : A → Type 0} where
  module _ (same : (x : A) → E x x) where
    pub Evolves-refl : (xs : List A) → Evolves E N xs xs
    Evolves-refl [] = nothing
    Evolves-refl (x ∷ xs) = old (same x) (Evolves-refl xs)

    -- One entry moves on.
    pub Evolves-update_one :
        (p : A → Bool) (u : A → A)
        → ((x : A) → p x ≡ true → E x (u x))
        → (xs : List A) → Evolves E N xs (update_one p u xs)
    unfolding update_one
    Evolves-update_one p u move [] = nothing
    Evolves-update_one p u move (x ∷ xs) = elim (Bool-cases (p x)) [
      | inl e ↦ rw e (old (move x e) (Evolves-refl xs))
      | inr e ↦ rw e (old (same x) (Evolves-update_one p u move xs))
    ]

  module _ (chain : (x y z : A) → E x y → E y z → E x z)
      (grown : (x y : A) → N x → E x y → N y) where
    pub Evolves-trans :
        {ys zs : List A} → Evolves E N ys zs → (xs : List A) → Evolves E N xs ys → Evolves E N xs zs
    Evolves-trans nothing xs a = a
    Evolves-trans (new n b) xs a = new n (Evolves-trans b xs a)
    Evolves-trans (old f b) (x ∷ xs) (old e a) = old (chain _ _ _ e f) (Evolves-trans b xs a)
    Evolves-trans (old f b) xs (new n a) = new (grown _ _ n f) (Evolves-trans b xs a)

  pub Evolves-Mem :
      {xs ys : List A} {x : A} → Evolves E N xs ys → Mem x xs → (y : A) × Mem y ys × E x y
  Evolves-Mem nothing m = elim m [ ]
  Evolves-Mem (old e es) first = (_, first, e)
  Evolves-Mem (old e es) (later m) = let r = Evolves-Mem es m in (r.0, later r.1, r.2)
  Evolves-Mem (new n es) m = let r = Evolves-Mem es m in (r.0, later r.1, r.2)
