-- ===== src/Machine/Holds.antt =====
-- What the abstract machine makes of the holds in the course of any changes.
use flashkart.Base.{◌<◌, ◌≡◌, refl, ◌∙◌, List, arith, sym, subst}
use flashkart.Runtime.Guarantee.{Reach, Reach-trans, here, next}
use flashkart.Store.{Mongoose, World, Reservation, ReservationStatus, held}
use flashkart.Inventory.Reservations.{set_status}
use flashkart.Machine.{HoldStep, Change, holds, moves_hold, aside}
use flashkart.Machine.Evolution.{Evolves, new, Evolves-refl, Evolves-update_one, Evolves-trans}

-- A hold keeps its product, its user, its quantity and its deadline.
pub record HoldMoves (r r' : Reservation) : Type 0 where
  pub same_id : r'.id ≡ r.id
  pub same_user : r'.user_id ≡ r.user_id
  pub same_product : r'.product_id ≡ r.product_id
  pub same_quantity : r'.quantity ≡ r.quantity
  pub same_deadline : r'.expires_at ≡ r.expires_at
  pub leads : Reach HoldStep r.status r'.status

pub record HoldPlaced (r : Reservation) : Type 0 where
  pub from_held : Reach HoldStep held r.status
  pub some_quantity : 0 < r.quantity

HoldMoves-refl : (r : Reservation) → HoldMoves r r
HoldMoves-refl r = record {
  same_id = refl;
  same_user = refl;
  same_product = refl;
  same_quantity = refl;
  same_deadline = refl;
  leads = here;
}

HoldMoves-trans : (a b c : Reservation) → HoldMoves a b → HoldMoves b c → HoldMoves a c
HoldMoves-trans a b c x y = record {
  same_id = y.same_id ∙ x.same_id;
  same_user = y.same_user ∙ x.same_user;
  same_product = y.same_product ∙ x.same_product;
  same_quantity = y.same_quantity ∙ x.same_quantity;
  same_deadline = y.same_deadline ∙ x.same_deadline;
  leads = Reach-trans x.leads y.leads;
}

HoldPlaced-moves : (a b : Reservation) → HoldPlaced a → HoldMoves a b → HoldPlaced b
HoldPlaced-moves a b x y = record {
  from_held = Reach-trans x.from_held y.leads;
  some_quantity = omega (arith, x.some_quantity, y.same_quantity);
}

abbrev pub HoldsEvolve : List Reservation → List Reservation → Type 0
HoldsEvolve = Evolves HoldMoves HoldPlaced

moved_hold :
    (s : ReservationStatus) (r : Reservation)
    → HoldStep held s
    → r.status ≡ held
    → HoldMoves r (set_status s r)
moved_hold s r st h = record {
  same_id = refl;
  same_user = refl;
  same_product = refl;
  same_quantity = refl;
  same_deadline = refl;
  leads = subst (λ x. Reach HoldStep x s) (sym h) (next here st);
}

Change-HoldsEvolve :
    {m : Mongoose} → {w w' : World} → Change m w w' → HoldsEvolve w.reservations w'.reservations
Change-HoldsEvolve {w} (holds r e pos) =
    new (record { from_held = subst (Reach HoldStep held) (sym e) here; some_quantity = pos })
      (Evolves-refl HoldMoves-refl w.reservations)
Change-HoldsEvolve {w} (moves_hold p s st h) =
    Evolves-update_one HoldMoves-refl p _ (λ r k. moved_hold s r st (h r k)) w.reservations
Change-HoldsEvolve {w} (aside w' e) = rw e.2 (Evolves-refl HoldMoves-refl w.reservations)
Change-HoldsEvolve {w} _ = Evolves-refl HoldMoves-refl w.reservations

-- In the course of any changes, every hold keeps its terms and leaves the status `held` once at most.
pub Reach-HoldsEvolve :
    {m : Mongoose}
    → {w w' : World} → Reach (Change m) w w'
    → HoldsEvolve w.reservations w'.reservations
Reach-HoldsEvolve {w} here = Evolves-refl HoldMoves-refl w.reservations
Reach-HoldsEvolve {w} (next r c) =
    Evolves-trans HoldMoves-trans HoldPlaced-moves (Change-HoldsEvolve c) w.reservations
      (Reach-HoldsEvolve r)
