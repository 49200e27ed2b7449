-- ===== src/Routes/Holds/Accounting.antt =====
-- Confirming and releasing through the routes keep the account of every product.
use flashkart.Base.{ℕ, refl, String, Option, none, some, arith, Bool-cases, inl, inr}
use flashkart.Runtime.{err}
use flashkart.Runtime.Ledger.{Safe, Safe-bind}
use flashkart.Store.{Mongoose, Product, Action, Reservation}
use flashkart.Inventory.Account.{stock_account}
use flashkart.Inventory.Commands.{Kept, Spent, Settled, Settled→Spent}
use flashkart.Inventory.Reservations.{
  ConfirmResult, ReleaseResult, confirm_reservation, release_reservation, find_reservation,
}
use flashkart.Inventory.Reservations.Accounting.{find_reservation-Safe, confirm_reservation-Safe}
use flashkart.Inventory.Reservations.Sweeping.{release_reservation-Safe}
use flashkart.Routes.Holds.{
  HoldReply, foreign, owned, ensure_owner, guarded, confirm_reply, confirm, release_reply, release,
}

module _ (m : Mongoose) (catalog : Option Product) (p : ℕ) where
  owned-Safe :
      (user_id : String) (o : Option Reservation) (c : ℕ)
      → Safe (stock_account m catalog p) (Spent m catalog p c) (owned m user_id o) c
  unfolding owned
  owned-Safe user_id none c = omega arith
  owned-Safe user_id (some doc) c = elim (Bool-cases (foreign m doc.user_id user_id)) [
    | inl e ↦ rw e (omega arith)
    | inr e ↦ rw e refl
  ]

  ensure_owner-Safe :
      (id user_id : String) (c : ℕ)
      → Safe (stock_account m catalog p) (Spent m catalog p c) (ensure_owner m id user_id) c
  unfolding ensure_owner
  ensure_owner-Safe id user_id c =
      Safe-bind (stock_account m catalog p) (Kept m catalog p c) (Spent m catalog p c)
        (find_reservation m id) (owned m user_id) c (find_reservation-Safe m catalog p id c)
        (λ o d k. rw k (owned-Safe user_id o c)) (λ e d k. omega (arith, k))

  guarded-Safe :
      (id user_id : String) (handler : Reservation → Action HoldReply) (c : ℕ)
      → ((doc : Reservation)
          → Safe (stock_account m catalog p) (Spent m catalog p c) (handler doc) c)
      → Safe (stock_account m catalog p) (Spent m catalog p c) (guarded m id user_id handler) c
  unfolding guarded
  guarded-Safe id user_id handler c s = elim (Bool-cases (m.is_valid_object_id id)) [
    | inr e ↦ rw e (omega arith)
    | inl e ↦ rw e (
        Safe-bind (stock_account m catalog p) (Spent m catalog p {A = Reservation} c)
          (Spent m catalog p c) (ensure_owner m id user_id) handler c
          (ensure_owner-Safe id user_id c) (λ doc d k. rw k (s doc)) (λ e d k. k))
  ]

  confirm_reply-Safe :
      (id : String) (r : ConfirmResult) (c : ℕ)
      → Safe (stock_account m catalog p) (Spent m catalog p c) (confirm_reply m id r) c
  unfolding confirm_reply
  confirm_reply-Safe id ConfirmResult.not_found c = omega arith
  confirm_reply-Safe id ConfirmResult.expired c = omega arith
  confirm_reply-Safe id (ConfirmResult.confirmed q n) c = refl

  pub confirm-Safe :
      (id user_id : String) (c : ℕ)
      → Safe (stock_account m catalog p) (Spent m catalog p c) (confirm m id user_id) c
  unfolding confirm
  confirm-Safe id user_id c = guarded-Safe id user_id _ c λ doc.
      Safe-bind (stock_account m catalog p) (Kept m catalog p c) (Spent m catalog p c)
        (confirm_reservation m id) (confirm_reply m id) c
        (confirm_reservation-Safe m catalog p id c) (λ r d k. rw k (confirm_reply-Safe id r c))
        (λ e d k. omega (arith, k))

  release_reply-Safe :
      (id : String) (r : ReleaseResult) (c : ℕ)
      → Safe (stock_account m catalog p) (Spent m catalog p c) (release_reply m id r) c
  unfolding release_reply
  release_reply-Safe id ReleaseResult.not_found c = omega arith
  release_reply-Safe id ReleaseResult.not_holdable c = refl
  release_reply-Safe id (ReleaseResult.released q n) c = refl

  pub release-Safe :
      (id user_id : String) (c : ℕ)
      → Safe (stock_account m catalog p) (Spent m catalog p c) (release m id user_id) c
  unfolding release
  release-Safe id user_id c = guarded-Safe id user_id _ c λ doc.
      Safe-bind (stock_account m catalog p) (Settled m catalog p c) (Spent m catalog p c)
        (release_reservation m id) (release_reply m id) c
        (release_reservation-Safe m catalog p id c) (λ r d k. rw k (release_reply-Safe id r c))
        (λ e d k. Settled→Spent m catalog p {A = ReleaseResult} c (err e) d k)
