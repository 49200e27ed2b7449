-- ===== src/Routes/Holds.antt =====
-- api/src/routes/reservations.ts: the handlers for a hold, which only its owner may use.
pub mod Guarantees
pub mod Accounting
pub mod Ownership
use flashkart.Base.{
  ℕ, Bool, true, false, String, Option, none, some, str_eq, not, ◌&&◌, if◌then◌else◌,
}
use flashkart.Shared.Failures
use flashkart.Runtime.{ret, throw, app, ◌>>=◌}
use flashkart.Store.{Mongoose, Action, Reservation}
use flashkart.Inventory.Reservations.{
  ConfirmResult, ReleaseResult, confirm_reservation, release_reservation, find_reservation,
}

-- The bodies of the replies, all with status 200.
pub data HoldReply : Type 0 where
  reservation : Reservation → HoldReply
  confirmed : String → ℕ → ℕ → HoldReply
  released : String → ℕ → ℕ → HoldReply
  already_terminal : HoldReply

abbrev pub foreign : Mongoose → Option ℕ → String → Bool
foreign m none user_id = false
foreign m (some owner) user_id = not (str_eq (m.to_hex owner) user_id)

module _ (m : Mongoose) where
  unfoldable pub owned : String → Option Reservation → Action Reservation
  owned user_id none = throw (app (Failures.not_found "reservation not found"))
  owned user_id (some doc) =
      if foreign m doc.user_id user_id
      then throw (app (Failures.forbidden "not your reservation"))
      else ret doc

  unfoldable pub ensure_owner : String → String → Action Reservation
  unfolding owned
  ensure_owner id user_id = find_reservation m id >>= owned user_id

  -- The check of the id, and of the owner, before `handler`.
  unfoldable pub guarded : String → String → (Reservation → Action HoldReply) → Action HoldReply
  unfolding ensure_owner
  guarded id user_id handler =
      if m.is_valid_object_id id
      then ensure_owner id user_id >>= handler
      else throw (app (Failures.bad_request "invalid reservation id"))

  unfoldable pub view : String → String → Action HoldReply
  unfolding guarded
  view id user_id = guarded id user_id (λ doc. ret (reservation doc))

  unfoldable pub confirm_reply : String → ConfirmResult → Action HoldReply
  confirm_reply id ConfirmResult.not_found =
      throw (app (Failures.not_found "reservation not found"))
  confirm_reply id ConfirmResult.expired =
      throw (app (Failures.reservation_expired "Reservation expired"))
  confirm_reply id (ConfirmResult.confirmed product_id quantity) =
      ret (confirmed id product_id quantity)

  unfoldable pub confirm : String → String → Action HoldReply
  unfolding guarded confirm_reply
  confirm id user_id = guarded id user_id (λ doc. confirm_reservation m id >>= confirm_reply id)

  unfoldable pub release_reply : String → ReleaseResult → Action HoldReply
  release_reply id ReleaseResult.not_found =
      throw (app (Failures.not_found "reservation not found"))
  release_reply id ReleaseResult.not_holdable = ret already_terminal
  release_reply id (ReleaseResult.released product_id quantity) =
      ret (released id product_id quantity)

  unfoldable pub release : String → String → Action HoldReply
  unfolding guarded release_reply
  release id user_id = guarded id user_id (λ doc. release_reservation m id >>= release_reply id)
