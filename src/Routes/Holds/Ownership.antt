-- ===== src/Routes/Holds/Ownership.antt =====
-- Who may use a hold.
use flashkart.Base.{
  ℕ, ◌≡◌, refl, true, String, Option, some, List, [], ◌∷◌, ◌==◌, Bool-cases, inl, inr,
}
use flashkart.Runtime.{Tick, Err, throw, ◌>>=◌}
use flashkart.Runtime.Pool.{advance, run_alone}
use flashkart.Store.{Mongoose, World, Action, Reservation, find_one}
use flashkart.Inventory.Reservations.{find_reservation}
use flashkart.Routes.Holds.{HoldReply, foreign, owned, ensure_owner, guarded, confirm, release}

abbrev stopped : Err → Action HoldReply
stopped e = throw e

run_alone-throw :
    (ts : List Tick) (e : Err) (w : World) → run_alone ts (stopped e) w ≡ (stopped e, w)
unfolding run_alone advance
run_alone-throw [] e w = refl
run_alone-throw (t ∷ ts) e w = run_alone-throw ts e w

module _ (m : Mongoose) where
  refuses :
      (user_id : String) (o : Option Reservation) (doc : Reservation)
      (handler : Reservation → Action HoldReply) (ts : List Tick) (w : World)
      → o ≡ some doc
      → foreign m doc.user_id user_id ≡ true
      → (run_alone ts (owned m user_id o >>= handler) w).1 ≡ w
  unfolding owned
  refuses user_id o doc handler ts w found other = rw (found, other, run_alone-throw ts _ w)

  guarded-foreign :
      (id user_id : String) (n : ℕ) (doc : Reservation) (handler : Reservation → Action HoldReply)
      (ts : List Tick) (w : World)
      → m.object_id id ≡ some n
      → find_one (λ r. r.id == n) w.reservations ≡ some doc
      → foreign m doc.user_id user_id ≡ true
      → (run_alone ts (guarded m id user_id handler) w).1 ≡ w
  unfolding run_alone advance guarded ensure_owner find_reservation owned
  guarded-foreign id user_id n doc handler [] w known found other = refl
  guarded-foreign id user_id n doc handler (t ∷ ts) w known found other =
      elim (Bool-cases (m.is_valid_object_id id)) [
        | inr e ↦ rw (e, run_alone-throw ts _ w)
        | inl e ↦ elim (Bool-cases t.fault) [
          | inl f ↦ rw (e, known, f, run_alone-throw ts _ w)
          | inr f ↦ rw (e, known, f) (refuses user_id _ doc handler ts w found other)
        ]
      ]

  -- A request to confirm or to release a hold that has another user changes nothing at all,
  -- whichever of its commands fail.
  pub foreign_untouched :
      (id user_id : String) (n : ℕ) (doc : Reservation) (ts : List Tick) (w : World)
      → m.object_id id ≡ some n
      → find_one (λ r. r.id == n) w.reservations ≡ some doc
      → foreign m doc.user_id user_id ≡ true
      → ((run_alone ts (confirm m id user_id) w).1 ≡ w)
        × ((run_alone ts (release m id user_id) w).1 ≡ w)
  unfolding confirm release
  foreign_untouched id user_id n doc ts w known found other = (
    guarded-foreign id user_id n doc _ ts w known found other,
    guarded-foreign id user_id n doc _ ts w known found other,
  )
