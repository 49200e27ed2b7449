-- ===== src/Routes/Checkout/Once.antt =====
-- A buyer who sends one purchase again and again, under one idempotency key, buys once.
use flashkart.Base.{
  ℕ, ◌+◌, ◌≤◌, ◌<◌, ◌≡◌, ◌⊎◌, refl, ap, false, String, Option, none, some, List, [], ◌∷◌, map, All,
  arith, Bool-cases, inl, inr, if◌then◌else◌,
}
use flashkart.Shared.Replies.{Reply}
use flashkart.Runtime.{ret, throw, act, Tick, Result, ok, err}
use flashkart.Runtime.Pool.{run}
use flashkart.Runtime.Within.{Within-mono}
use flashkart.Runtime.Shares.{Reserve, Safe, Within-Safe}
use flashkart.Runtime.Shares.Pools.{Covered, run-Safe, sum}
use flashkart.Store.{Mongoose, World, Action, IdemEntry}
use flashkart.Idempotency.{IdemResult, lock_ttl_ms, stored}
use flashkart.Idempotency.Exclusion.{
  lock, entry, units, units_of-le, IsSteady, Keeps, Untouched, Untouched-keeps, Answers,
}
use flashkart.Idempotency.Exclusion.Waiting.{with_idempotency-Safe}
use flashkart.Routes.Checkout.{idem_key, keyed, valid_quantity, valid_key, validated, buy}
use flashkart.Routes.Products.Unkeyed.{Unkeyed, SameKeys, do_purchase-Unkeyed}

-- One of the requests at once: the purchase again, with a quantity, or another that touches no
-- idempotency key.
pub data Rival : Type 0 where
  again : ℕ → Rival
  other : Action IdemResult → Rival

abbrev pub IsRival : Rival → Type 0
IsRival (again quantity) = Unit {0}
IsRival (other p) = Unkeyed p

abbrev pub is_fresh : IdemResult → ℕ
is_fresh r = if r.replayed then 0 else 1

-- The answers to the purchase that are no replays.
abbrev pub fresh_answers : List Rival → List (Action IdemResult) → ℕ
fresh_answers (again quantity ∷ rs) (ret r ∷ ps) = is_fresh r + fresh_answers rs ps
fresh_answers (again quantity ∷ rs) (throw e ∷ ps) = fresh_answers rs ps
fresh_answers (again quantity ∷ rs) (act g k ∷ ps) = fresh_answers rs ps
fresh_answers (other q ∷ rs) (p ∷ ps) = fresh_answers rs ps
fresh_answers _ _ = 0

-- What is answered to the purchase is the reply that is held.
abbrev pub AllHeld : Option Reply → List Rival → List (Action IdemResult) → Type 0
AllHeld held (again quantity ∷ rs) (ret r ∷ ps) = (held ≡ some r.value) × AllHeld held rs ps
AllHeld held (again quantity ∷ rs) (throw e ∷ ps) = AllHeld held rs ps
AllHeld held (again quantity ∷ rs) (act g k ∷ ps) = AllHeld held rs ps
AllHeld held (other q ∷ rs) (p ∷ ps) = AllHeld held rs ps
AllHeld held _ _ = Unit {0}

-- A purchase may be made under a key that is free.
abbrev pub room : Option IdemEntry → ℕ
room none = 1
room (some e) = 0

module _ (m : Mongoose) (user_id id raw : String) where
  abbrev pub buy_key : String
  buy_key = idem_key "buy" user_id id raw

  abbrev pub rival : Rival → Action IdemResult
  rival (again quantity) = buy m user_id id quantity (some raw)
  rival (other p) = p

  module _ (start : ℕ) where
    abbrev the_lock : Reserve World
    the_lock = lock buy_key start

    abbrev Outcome : Rival → Result IdemResult → ℕ → World → Type 0
    Outcome (again quantity) = Answers buy_key start
    Outcome (other p) = λ r c w. c ≡ 0

    stable :
        (r : Rival) (x : Result IdemResult) (c : ℕ) (w v : World)
        → Outcome r x c w
        → Keeps buy_key start w v
        → Outcome r x c v
    stable (again quantity) (ok r) c w v o k = (k r.value o.0, o.1)
    stable (again quantity) (err e) c w v o k = tt
    stable (other p) x c w v o k = o

    untouched : (w w' : World) → SameKeys w w' → Untouched buy_key start w w'
    untouched w w' e = ap (λ (keys : String → Option IdemEntry). keys buy_key) e

    buy-Safe :
        (quantity : ℕ) (w : World)
        → Safe the_lock (Answers buy_key start) (buy m user_id id quantity (some raw)) 0 w
    unfolding buy validated keyed
    buy-Safe quantity w = elim (Bool-cases (m.is_valid_object_id id)) [
      | inr e ↦ rw e tt
      | inl e ↦ rw e (elim (Bool-cases (valid_quantity quantity)) [
        | inr f ↦ rw f tt
        | inl f ↦ rw f (elim (Bool-cases (valid_key (some raw))) [
          | inr g ↦ rw g tt
          | inl g ↦ rw g (
              with_idempotency-Safe buy_key start _ w
                (Within-mono untouched (do_purchase-Unkeyed m user_id id quantity)))
        ])
      ])
    ]

    rivals-AllSafe :
        (rs : List Rival) (w : World)
        → All IsRival rs
        → All (λ r. Safe the_lock (Outcome r) (rival r) 0 w) rs
    rivals-AllSafe [] w h = tt
    rivals-AllSafe (again quantity ∷ rs) w h = (buy-Safe quantity w, rivals-AllSafe rs w h.1)
    rivals-AllSafe (other p ∷ rs) w h = (
      Within-Safe the_lock 0 (λ w w' e. Untouched-keeps buy_key start w w' (untouched w w' e)) h.0
          w,
      rivals-AllSafe rs w h.1,
    )

    fresh-le : (r : IdemResult) (c : ℕ) → (r.replayed ≡ false → c ≡ 1) → is_fresh r ≤ c
    fresh-le r c h = elim (Bool-cases r.replayed) [
      | inl e ↦ rw e (omega arith)
      | inr e ↦ rw e (omega (arith, h e))
    ]

    -- The answers, by what the key holds.
    abbrev Told : Option Reply → List Rival → List (Action IdemResult) → ℕ → Type 0
    Told held rs ps units =
        AllHeld held rs ps
        × (fresh_answers rs ps ≤ units)
        × ((fresh_answers rs ps ≡ 0) ⊎ ((r : Reply) × (held ≡ some r)))

    Covered-Told :
        (rs : List Rival) (ps : List (Action IdemResult)) (cs : List ℕ) (w : World)
        → Covered the_lock Outcome rs ps cs w
        → Told (stored (entry buy_key start w)) rs ps (sum the_lock cs)
    Covered-Told [] [] [] w v = (tt, omega arith, inl refl)
    Covered-Told (again q ∷ rs) (ret r ∷ ps) (c ∷ cs) w v =
        let t = Covered-Told rs ps cs w v.1 in
        ((v.0.0, t.0), omega (arith, fresh-le r c v.0.1, t.1), inr (r.value, v.0.0))
    Covered-Told (again q ∷ rs) (throw e ∷ ps) (c ∷ cs) w v =
        let t = Covered-Told rs ps cs w v.1 in (t.0, omega (arith, t.1), t.2)
    Covered-Told (again q ∷ rs) (act g k ∷ ps) (c ∷ cs) w v =
        let t = Covered-Told rs ps cs w v.1 in (t.0, omega (arith, t.1), t.2)
    Covered-Told (other q ∷ rs) (p ∷ ps) (c ∷ cs) w v =
        let t = Covered-Told rs ps cs w v.1 in (t.0, omega (arith, t.1), t.2)
    Covered-Told [] [] (c ∷ cs) w v = absurd v
    Covered-Told [] (p ∷ ps) cs w v = absurd v
    Covered-Told (r ∷ rs) [] cs w v = absurd v
    Covered-Told (r ∷ rs) (p ∷ ps) [] w v = absurd v

    stored-units : (o : Option IdemEntry) (r : Reply) → stored o ≡ some r → units o ≡ 1
    stored-units none r h = cc
    stored-units (some e) r h = rw h refl

    units-room : (o : Option IdemEntry) → units o ≤ room o + 1
    units-room none = omega arith
    units-room (some e) = units_of-le e.result

    room-le : (o : Option IdemEntry) → room o ≤ 1
    room-le none = omega arith
    room-le (some e) = omega arith

    -- While the clock stays within the 30 seconds of a lock from `start` on, and the key held nothing at
    -- first, or what was expired, or what lasts as long: of any number of requests to buy with one
    -- user, product and idempotency key, however they interleave with each other and with others that
    -- touch no idempotency key, and whichever commands fail, one at most is answered that is no
    -- replay, none if the key was taken at first, and all that are answered get the reply that the key
    -- holds at the end.
    pub bought_once :
        (rs : List Rival) (s : List (ℕ × Tick)) (w : World)
        → All IsRival rs
        → All (λ e. (start ≤ e.1.now) × (e.1.now < start + lock_ttl_ms)) s
        → IsSteady buy_key start (w.idem buy_key)
        → let r = run s (map rival rs) w in
          (fresh_answers rs r.0 ≤ room (entry buy_key start w))
          × AllHeld (stored (entry buy_key start r.1)) rs r.0
    bought_once rs s w rivals window steady =
        let o = entry buy_key start w in
        let r =
          run-Safe the_lock Outcome stable rival w rs s (rivals-AllSafe rs w rivals) window
            (steady, omega (arith, units-room o, room-le o)) in
        let t = Covered-Told rs _ r.0 _ r.2 in
        (
          elim t.2 [
            | inl unsold ↦ omega (arith, unsold)
            | inr held ↦
                let one =
                  stored-units (entry buy_key start (run s (map rival rs) w).1) held.0 held.1 in
                omega (arith, t.1, r.1.1, one, units-room o)
          ],
          t.0,
        )
