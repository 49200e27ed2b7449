-- ===== src/Web/Subscriptions.antt =====
-- Which products the page subscribes to.
use flashkart.Base.{
  ◌≡◌, refl, ap, ◌∙◌, sym, Bool, true, false, Bool-cases, inl, inr, String, List, [], ◌∷◌, ◌++◌,
  map, All, str_eq, if◌then◌else◌, eq_refl, true_not_false,
}
use flashkart.Web.{
  Client, Product, subscribe, has, subscribe_product, subscribe_each, subscribe_products,
}

-- No id twice.
abbrev pub IsDistinct : List String → Type 0
IsDistinct [] = Unit {0}
IsDistinct (s ∷ ss) = (has s ss ≡ false) × IsDistinct ss

-- The page subscribed to `ids` in between, once each, and to nothing else.
pub record Subscribes (c c' : Client) (ids : List String) : Type 0 where
  pub remembered : c'.subscribed ≡ ids ++ c.subscribed
  pub said : c'.emitted ≡ map subscribe ids ++ c.emitted
  pub once : IsDistinct c'.subscribed

-- Each is the id of one of the products.
abbrev pub AllShown : List Product → List String → Type 0
AllShown ps ids = All (λ id. has id (map (λ p. p.id) ps) ≡ true) ids

append_assoc : {A : Type 0} (xs ys zs : List A) → (xs ++ ys) ++ zs ≡ xs ++ (ys ++ zs)
append_assoc [] ys zs = refl
append_assoc (x ∷ xs) ys zs = ap (λ l. x ∷ l) (append_assoc xs ys zs)

map-append : {A B : Type 0} (f : A → B) (xs ys : List A) → map f (xs ++ ys) ≡ map f xs ++ map f ys
map-append f [] ys = refl
map-append f (x ∷ xs) ys = ap (λ l. f x ∷ l) (map-append f xs ys)

has-append : (id : String) (xs ys : List String) → has id ys ≡ true → has id (xs ++ ys) ≡ true
unfolding has
has-append id [] ys h = h
has-append id (x ∷ xs) ys h = elim (Bool-cases (str_eq x id)) [
  | inl e ↦ rw e refl
  | inr e ↦ rw e (has-append id xs ys h)
]

All-append : {A : Type 0} (P : A → Type 0) (xs ys : List A) → All P xs → All P ys → All P (xs ++ ys)
All-append P [] ys h k = k
All-append P (x ∷ xs) ys h k = (h.0, All-append P xs ys h.1 k)

AllShown-more :
    (p : Product) (ps : List Product) (ids : List String) → AllShown ps ids → AllShown (p ∷ ps) ids
unfolding has
AllShown-more p ps [] h = tt
AllShown-more p ps (id ∷ ids) h = elim (Bool-cases (str_eq p.id id)) [
  | inl e ↦ (rw e refl, AllShown-more p ps ids h.1)
  | inr e ↦ (rw e h.0, AllShown-more p ps ids h.1)
]

Subscribes-trans :
    (a b c : Client) (xs ys : List String)
    → Subscribes a b xs
    → Subscribes b c ys
    → Subscribes a c (ys ++ xs)
Subscribes-trans a b c xs ys p q = record {
  remembered =
      q.remembered ∙ ap (λ l. ys ++ l) p.remembered ∙ sym (append_assoc ys xs a.subscribed);
  said =
      q.said
      ∙ ap (λ l. map subscribe ys ++ l) p.said
      ∙ sym (append_assoc (map subscribe ys) (map subscribe xs) a.emitted)
      ∙ ap (λ l. l ++ a.emitted) (sym (map-append subscribe ys xs));
  once = q.once;
}

subscribe_product-Subscribes :
    (p : Product) (c : Client)
    → IsDistinct c.subscribed
    → (ids : List String) × Subscribes c (subscribe_product p c) ids
      × ((ps : List Product) → AllShown (p ∷ ps) ids)
      × (has p.id (subscribe_product p c).subscribed ≡ true)
unfolding subscribe_product has
subscribe_product-Subscribes p c once = elim (Bool-cases (has p.id c.subscribed)) [
  | inl e ↦ rw e ([], record { remembered = refl; said = refl; once = once }, (λ ps. tt), e)
  | inr e ↦ rw e (
    p.id ∷ [],
    record { remembered = refl; said = refl; once = (e, once) },
    (λ ps. (rw (eq_refl p.id) refl, tt)),
    rw (eq_refl p.id) refl,
  )
]

subscribe_each-Subscribes :
    (ps : List Product) (c : Client)
    → IsDistinct c.subscribed
    → (ids : List String) × Subscribes c (subscribe_each ps c) ids
      × AllShown ps ids
      × All (λ p. has p.id (subscribe_each ps c).subscribed ≡ true) ps
unfolding subscribe_each
subscribe_each-Subscribes [] c once =
    ([], record { remembered = refl; said = refl; once = once }, tt, tt)
subscribe_each-Subscribes (p ∷ ps) c once =
    let first = subscribe_product-Subscribes p c once in
    let rest = subscribe_each-Subscribes ps (subscribe_product p c) first.1.once in
    (
      rest.0 ++ first.0,
      Subscribes-trans c (subscribe_product p c) _ first.0 rest.0 first.1 rest.1,
      All-append (λ id. has id (map (λ q. q.id) (p ∷ ps)) ≡ true) rest.0 first.0
          (AllShown-more p ps rest.0 rest.2) (first.2 ps),
      (rw rest.1.remembered (has-append p.id rest.0 _ first.3), rest.3),
    )

-- With a socket, and no product remembered twice, the effect that follows a change of the products
-- sends one subscription for each product shown that was not remembered, and no other, remembers
-- these, and then remembers every product shown, each once.
pub subscribe_products-Subscribes :
    (c : Client)
    → c.has_socket ≡ true
    → IsDistinct c.subscribed
    → (ids : List String) × Subscribes c (subscribe_products c) ids
      × AllShown c.products ids
      × All (λ p. has p.id (subscribe_products c).subscribed ≡ true) c.products
unfolding subscribe_products
subscribe_products-Subscribes c socket once = subscribing c.has_socket socket
  where
    subscribing :
        (b : Bool)
        → b ≡ true
        → let c' = if b then subscribe_each c.products c else c in
          (ids : List String) × Subscribes c c' ids
          × AllShown c.products ids
          × All (λ p. has p.id c'.subscribed ≡ true) c.products
    subscribing true e = subscribe_each-Subscribes c.products c once
    subscribing false e = absurd (true_not_false (sym e))
