-- ===== src/Realtime.antt =====
-- api/src/realtime/socket.ts: which sockets are in which rooms, and who gets an event. A message
-- that does not carry a text is ignored by the source, and left out here; lengths count characters.
pub mod Privacy
use Prim.Native.String.{count}
use flashkart.Base.{
  ℕ, Bool, true, false, String, Option, none, some, List, [], ◌∷◌, ltb, str_eq, ◌==◌, ◌&&◌,
  if◌then◌else◌,
}
use flashkart.Shared.Events.{Role, StockEvent, OrderEvent}
use flashkart.Store.{Mongoose}
use flashkart.Auth.{Jwt, Env, verify_access}

-- `product:<id>` and `user:<id>`.
pub data Room : Type 0 where
  product : String → Room
  user : String → Room

unfoldable pub room_eq : Room → Room → Bool
room_eq (product a) (product b) = str_eq a b
room_eq (user a) (user b) = str_eq a b
room_eq (product a) (user b) = false
room_eq (user a) (product b) = false

pub data Message (Token : Type 0) : Type 0 where
  subscribe : String → Message Token
  unsubscribe : String → Message Token
  subscribe_orders : Token → Message Token

-- Whether a socket is in a room.
abbrev pub Rooms : Type 0
Rooms = ℕ → Room → Bool

unfoldable pub join : ℕ → Room → Rooms → Rooms
unfolding room_eq
join socket room rooms = λ s r. if socket == s && room_eq room r then true else rooms s r

unfoldable pub leave : ℕ → Room → Rooms → Rooms
unfolding room_eq
leave socket room rooms = λ s r. if socket == s && room_eq room r then false else rooms s r

unfoldable pub join_user : ℕ → Option (String × Role) → Rooms → Rooms
unfolding join
join_user socket none rooms = rooms
join_user socket (some (user_id, role)) rooms = join socket (user user_id) rooms

module _ {Token : Type 0} (m : Mongoose) (j : Jwt Token) (env : Env) where
  -- A message of a socket, at a time.
  unfoldable pub receive : ℕ → ℕ → Message Token → Rooms → Rooms
  unfolding join leave join_user
  receive now socket (subscribe product_id) rooms =
      if ltb 64 (count product_id) then rooms else join socket (product product_id) rooms
  receive now socket (unsubscribe product_id) rooms = leave socket (product product_id) rooms
  receive now socket (subscribe_orders token) rooms =
      join_user socket (verify_access m j env token now) rooms

  -- The messages so far, the oldest first.
  unfoldable pub receive_all : List (ℕ × ℕ × Message Token) → Rooms → Rooms
  unfolding receive
  receive_all [] rooms = rooms
  receive_all ((now, socket, msg) ∷ ms) rooms = receive_all ms (receive now socket msg rooms)

-- Whether a socket gets an event.
unfoldable pub gets_stock : Rooms → StockEvent → ℕ → Bool
gets_stock rooms ev socket = rooms socket (product ev.product_id)

unfoldable pub gets_order : Rooms → OrderEvent → ℕ → Bool
gets_order rooms ev socket = rooms socket (user ev.user_id)
