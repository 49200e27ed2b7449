-- ===== src/Store/Updates.antt =====
-- What `findOneAndUpdate` does to a collection: one match changes, and is what is returned.
use flashkart.Base.{
  ℕ, ◌+◌, ◌≡◌, refl, Bool, true, none, some, List, [], ◌∷◌, arith, sum_by, All, Bool-cases, inl,
  inr, subst,
}
use flashkart.Store.{find_one_and_update, update_one}

module _ {A : Type 0} (p : A → Bool) (u : A → A) where
  -- No match: nothing changes.
  pub update_one-none : (xs : List A) → find_one_and_update p u xs ≡ none → update_one p u xs ≡ xs
  unfolding find_one_and_update update_one
  update_one-none [] h = refl
  update_one-none (x ∷ xs) h = ground (arith, update_one-none xs)

  -- A measure `f` that the update lowers by `g` falls by just that.
  pub sum-update_one :
      (f g : A → ℕ)
      → ((x : A) → p x ≡ true → f x ≡ f (u x) + g (u x))
      → (xs : List A) (y : A) → find_one_and_update p u xs ≡ some y
      → sum_by f xs ≡ sum_by f (update_one p u xs) + g y
  unfolding find_one_and_update update_one
  sum-update_one f g drop [] y h = cc
  sum-update_one f g drop (x ∷ xs) y h = ground (arith, drop x, sum-update_one f g drop xs y)

  pub All-update_one :
      (P : A → Type 0)
      → ((x : A) → P x → P (u x))
      → (xs : List A) → All P xs
      → All P (update_one p u xs)
  unfolding update_one
  All-update_one P keep [] h = tt
  All-update_one P keep (x ∷ xs) h = elim (Bool-cases (p x)) [
    | inl e ↦ rw e (keep x h.0, h.1)
    | inr e ↦ rw e (h.0, All-update_one P keep xs h.1)
  ]

  -- The document that is returned matched the query before the update.
  pub find_one_and_update-found :
      (xs : List A) (y : A)
      → find_one_and_update p u xs ≡ some y
      → (P : A → Type 0) → ((x : A) → p x ≡ true → P x → P (u x))
      → All P xs
      → P y
  unfolding find_one_and_update
  find_one_and_update-found [] y h P keep a = cc
  find_one_and_update-found (x ∷ xs) y h P keep a = elim (Bool-cases (p x)) [
    | inl e ↦ subst P (ground arith) (keep x e a.0)
    | inr e ↦ find_one_and_update-found xs y (ground arith) P keep a.1
  ]

  -- A measure that the update keeps stays as it is.
  pub sum-update_one_same :
      (f : A → ℕ)
      → ((x : A) → f (u x) ≡ f x)
      → (xs : List A) → sum_by f (update_one p u xs) ≡ sum_by f xs
  unfolding update_one
  sum-update_one_same f same [] = refl
  sum-update_one_same f same (x ∷ xs) = ground (arith, same x, sum-update_one_same f same xs)
