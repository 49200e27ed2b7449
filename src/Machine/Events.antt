-- ===== src/Machine/Events.antt =====
-- The order events, against the orders.
use flashkart.Base.{ap, sym, ◌∙◌, List, [], ◌∷◌, All, some}
use flashkart.Shared.Events.{OrderEvent}
use flashkart.Runtime.Guarantee.{Reach, Reach-trans, here, next}
use flashkart.Store.{Mongoose, World, Order}
use flashkart.Machine.{
  Change, keeps, sells, returns, primes, holds, moves_hold, orders, moves_order, fails_order,
  counts_attempt, announces, aside, Told,
}
use flashkart.Machine.Evolution.{Evolves-Mem}
use flashkart.Machine.Histories.{OrdersEvolve, Reach-OrdersEvolve}

abbrev pub AllTold : Mongoose → World → Type 0
AllTold m w = All (Told m w.orders) w.order_events

module _ {m : Mongoose} where
  Told-evolve :
      {os os' : List Order} {ev : OrderEvent} → OrdersEvolve os os' → Told m os ev → Told m os' ev
  Told-evolve evolve told =
      let r = Evolves-Mem evolve told.listed in
      record {
        subject = r.0;
        listed = r.1;
        its_id = told.its_id ∙ ap some (sym r.2.same_id);
        its_user = told.its_user ∙ ap m.to_hex (sym r.2.same_user);
        reached = Reach-trans told.reached r.2.leads;
      }

  -- What an event said stays true.
  pub Told-later :
      {w w' : World} {ev : OrderEvent}
      → Told m w.orders ev
      → Reach (Change m) w w'
      → Told m w'.orders ev
  Told-later told r = Told-evolve (Reach-OrdersEvolve r) told

  All-later :
      {w w' : World} (evs : List OrderEvent)
      → Reach (Change m) w w'
      → All (Told m w.orders) evs
      → All (Told m w'.orders) evs
  All-later [] r a = tt
  All-later (ev ∷ evs) r a = (Told-later a.0 r, All-later evs r a.1)

  Change-AllTold : {w w' : World} → Change m w w' → AllTold m w → AllTold m w'
  Change-AllTold {w} {w'} (announces ev told) a =
      let c = next here (announces ev told) in
      (Told-later told c, All-later {w = w} w.order_events c a)
  Change-AllTold {w} (aside w' e) a =
      rw e.4 (All-later {w = w} w.order_events (next here (aside w' e)) a)
  Change-AllTold {w} keeps a = a
  Change-AllTold {w} (sells key n qty e le) a = a
  Change-AllTold {w} (returns key qty) a = a
  Change-AllTold {w} (primes key n e) a = a
  Change-AllTold {w} (holds r e pos) a = a
  Change-AllTold {w} (moves_hold p s st h) a = a
  Change-AllTold {w} (orders o n pos) a =
      All-later {w = w} w.order_events (next here (orders o n pos)) a
  Change-AllTold {w} (moves_order id s s' st) a =
      All-later {w = w} w.order_events (next here (moves_order id s s' st)) a
  Change-AllTold {w} (fails_order id reason) a =
      All-later {w = w} w.order_events (next here (fails_order id reason)) a
  Change-AllTold {w} (counts_attempt p n) a =
      All-later {w = w} w.order_events (next here (counts_attempt p n)) a

  -- In the course of any changes, what the events say stays true.
  pub Reach-AllTold : {w w' : World} → Reach (Change m) w w' → AllTold m w → AllTold m w'
  Reach-AllTold here a = a
  Reach-AllTold (next r c) a = Change-AllTold c (Reach-AllTold r a)
