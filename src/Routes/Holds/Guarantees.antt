-- ===== src/Routes/Holds/Guarantees.antt =====
-- The handlers for a hold only make changes of the machine.
use flashkart.Base.{String, Option, none, some}
use flashkart.Runtime.Guarantee.{returns, throws, Guar-bind, Guar-if}
use flashkart.Store.{Mongoose, Action, Reservation}
use flashkart.Machine.Rules.{Lawful}
use flashkart.Inventory.Reservations.{ConfirmResult, ReleaseResult}
use flashkart.Inventory.Reservations.Guarantees.{
  find_reservation-Lawful, confirm_reservation-Lawful, release_reservation-Lawful,
}
use flashkart.Routes.Holds.{
  HoldReply, foreign, owned, ensure_owner, guarded, confirm_reply, confirm, release_reply, release,
}

module _ (m : Mongoose) where
  owned-Lawful : (user_id : String) (o : Option Reservation) → Lawful m (owned m user_id o)
  unfolding owned
  owned-Lawful user_id none = throws
  owned-Lawful user_id (some doc) = Guar-if (foreign m doc.user_id user_id) throws returns

  guarded-Lawful :
      (id user_id : String) (handler : Reservation → Action HoldReply)
      → ((doc : Reservation) → Lawful m (handler doc))
      → Lawful m (guarded m id user_id handler)
  unfolding guarded ensure_owner
  guarded-Lawful id user_id handler h =
      Guar-if (m.is_valid_object_id id)
        (Guar-bind (Guar-bind (find_reservation-Lawful m id) (owned-Lawful user_id)) h) throws

  confirm_reply-Lawful : (id : String) (r : ConfirmResult) → Lawful m (confirm_reply m id r)
  unfolding confirm_reply
  confirm_reply-Lawful id ConfirmResult.not_found = throws
  confirm_reply-Lawful id ConfirmResult.expired = throws
  confirm_reply-Lawful id (ConfirmResult.confirmed product_id quantity) = returns

  pub confirm-Lawful : (id user_id : String) → Lawful m (confirm m id user_id)
  unfolding confirm
  confirm-Lawful id user_id =
      guarded-Lawful id user_id _
        (λ doc. Guar-bind (confirm_reservation-Lawful m id) (confirm_reply-Lawful id))

  release_reply-Lawful : (id : String) (r : ReleaseResult) → Lawful m (release_reply m id r)
  unfolding release_reply
  release_reply-Lawful id ReleaseResult.not_found = throws
  release_reply-Lawful id ReleaseResult.not_holdable = returns
  release_reply-Lawful id (ReleaseResult.released product_id quantity) = returns

  pub release-Lawful : (id user_id : String) → Lawful m (release m id user_id)
  unfolding release
  release-Lawful id user_id =
      guarded-Lawful id user_id _
        (λ doc. Guar-bind (release_reservation-Lawful m id) (release_reply-Lawful id))
