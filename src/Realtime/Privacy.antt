-- ===== src/Realtime/Privacy.antt =====
-- Order events go to their user only.
use Prim.Native.String.{count}
use flashkart.Base.{
  ap, ℕ, ◌≡◌, refl, sym, ◌∙◌, ◌⊎◌, inl, inr, Bool, true, false, String, Option, none, some, List,
  [], ◌∷◌, ltb, ◌==◌, ◌&&◌, if◌then◌else◌, ==_iff, eq_iff, true_not_false,
}
use flashkart.Shared.Events.{Role, OrderEvent}
use flashkart.Store.{Mongoose}
use flashkart.Auth.{Jwt, Env, verify_access}
use flashkart.Realtime.{
  Room, product, user, room_eq, Message, subscribe, unsubscribe, subscribe_orders, Rooms, join,
  leave, join_user, receive, receive_all, gets_order,
}

if_and :
    (a b c : Bool) → (if a && b then true else c) ≡ true → ((a ≡ true) × (b ≡ true)) ⊎ (c ≡ true)
if_and true true c h = inl (refl, refl)
if_and true false c h = inr h
if_and false b c h = inr h

if_not : (a c : Bool) → (if a then false else c) ≡ true → c ≡ true
if_not true c h = absurd (true_not_false (sym h))
if_not false c h = h

join-inv :
    (s socket : ℕ) (r room : Room) (rooms : Rooms)
    → join s r rooms socket room ≡ true
    → ((s ≡ socket) × (room_eq r room ≡ true)) ⊎ (rooms socket room ≡ true)
unfolding join
join-inv s socket r room rooms h =
    elim (if_and (s == socket) (room_eq r room) (rooms socket room) h) [
      | inl e ↦ inl ((==_iff s socket).0 e.0, e.1)
      | inr e ↦ inr e
    ]

module _ {Token : Type 0} (m : Mongoose) (j : Jwt Token) (env : Env) where
  -- Among the messages is one of this socket with a token that verified, then, as this user's.
  abbrev pub Proved : ℕ → String → ℕ × ℕ × Message Token → Type 0
  Proved socket user_id (now, s, subscribe_orders token) =
      (s ≡ socket) × ((role : Role) × (verify_access m j env token now ≡ some (user_id, role)))
  Proved socket user_id (now, s, subscribe product_id) = ⊥
  Proved socket user_id (now, s, unsubscribe product_id) = ⊥

  abbrev pub SomeProved : ℕ → String → List (ℕ × ℕ × Message Token) → Type 0
  SomeProved socket user_id [] = ⊥
  SomeProved socket user_id (msg ∷ ms) = Proved socket user_id msg ⊎ SomeProved socket user_id ms

  joined_user :
      (now s socket : ℕ) (user_id : String) (token : Token) (o : Option (String × Role))
      (rooms : Rooms)
      → verify_access m j env token now ≡ o
      → join_user s o rooms socket (user user_id) ≡ true
      → Proved socket user_id (now, s, subscribe_orders token)
        ⊎ (rooms socket (user user_id) ≡ true)
  unfolding join_user room_eq
  joined_user now s socket user_id token none rooms v h = inr h
  joined_user now s socket user_id token (some (u, role)) rooms v h =
      elim (join-inv s socket (user u) (user user_id) rooms h) [
        | inl e ↦ inl (e.0, (role, v ∙ ap (λ x. some (x, role)) ((eq_iff u user_id).0 e.1)))
        | inr e ↦ inr e
      ]

  joined_product :
      (long : Bool) (s socket : ℕ) (user_id product_id : String) (rooms : Rooms)
      → (if long then rooms else join s (product product_id) rooms) socket (user user_id) ≡ true
      → rooms socket (user user_id) ≡ true
  unfolding room_eq
  joined_product true s socket user_id product_id rooms h = h
  joined_product false s socket user_id product_id rooms h =
      elim (join-inv s socket (product product_id) (user user_id) rooms h) [
        | inl e ↦ absurd (true_not_false (sym e.1))
        | inr e ↦ e
      ]

  receive-inv :
      (now s socket : ℕ) (user_id : String) (msg : Message Token) (rooms : Rooms)
      → receive m j env now s msg rooms socket (user user_id) ≡ true
      → Proved socket user_id (now, s, msg) ⊎ (rooms socket (user user_id) ≡ true)
  unfolding receive leave
  receive-inv now s socket user_id (subscribe product_id) rooms h =
      inr (joined_product (ltb 64 (count product_id)) s socket user_id product_id rooms h)
  receive-inv now s socket user_id (unsubscribe product_id) rooms h = inr (if_not _ _ h)
  receive-inv now s socket user_id (subscribe_orders token) rooms h =
      joined_user now s socket user_id token _ rooms refl h

  receive_all-inv :
      (ms : List (ℕ × ℕ × Message Token)) (rooms : Rooms) (socket : ℕ) (user_id : String)
      → receive_all m j env ms rooms socket (user user_id) ≡ true
      → SomeProved socket user_id ms ⊎ (rooms socket (user user_id) ≡ true)
  unfolding receive_all
  receive_all-inv [] rooms socket user_id h = inr h
  receive_all-inv ((now, s, msg) ∷ ms) rooms socket user_id h =
      elim (receive_all-inv ms (receive m j env now s msg rooms) socket user_id h) [
        | inl e ↦ inl (inr e)
        | inr e ↦ elim (receive-inv now s socket user_id msg rooms e) [
          | inl f ↦ inl (inl f)
          | inr f ↦ inr f
        ]
      ]

  -- After any messages of any sockets, from empty rooms, a socket gets an order event only if one of
  -- its messages had a token that verified, at its time, as an access token of the event's user.
  pub gets_order-SomeProved :
      (ms : List (ℕ × ℕ × Message Token)) (ev : OrderEvent) (socket : ℕ)
      → gets_order (receive_all m j env ms (λ s r. false)) ev socket ≡ true
      → SomeProved socket ev.user_id ms
  unfolding gets_order
  gets_order-SomeProved ms ev socket h =
      elim (receive_all-inv ms (λ s r. false) socket ev.user_id h) [
        | inl e ↦ e
        | inr e ↦ absurd (true_not_false (sym e))
      ]
