-- ===== src/Scripts.antt =====
-- api/src/scripts/oversellDemo.ts: the two buyers that the demonstration compares.
pub mod Swarm
use flashkart.Base.{ℕ, ◌-◌, Bool, true, false, String, Option, none, some, ltb, leb, if◌then◌else◌}
use flashkart.Runtime.{ret, ◌>>=◌}
use flashkart.Store.{World, Action, redis, put_key, sleep}

-- `Number(null)` is 0.
abbrev pub number : Option ℕ → ℕ
number none = 0
number (some n) = n

abbrev pub set_stock : World → String → ℕ → World
set_stock w key n = record w { stock = put_key w.stock key n }

-- Read, wait, write: another buyer may come in between.
abbrev pub naive_write : String → ℕ → Action Bool
naive_write key current =
    if ltb 0 current
    then sleep >>= (λ _. redis (λ t w. (tt, set_stock w key (current - 1)))) >>= (λ u. ret true)
    else ret false

abbrev pub naive_buy : String → Action Bool
naive_buy key = redis (λ t w. (number (w.stock key), w)) >>= naive_write key

-- The script: bought, sold out, and not initialised.
pub data DemoReply : Type 0 where
  took : DemoReply
  none_left : DemoReply
  missing : DemoReply

abbrev pub demo_lua : Option ℕ → World → String → DemoReply × World
demo_lua none w key = (missing, w)
demo_lua (some stock) w key =
    if leb stock 0 then (none_left, w) else (took, set_stock w key (stock - 1))

abbrev pub is_bought : DemoReply → Bool
is_bought took = true
is_bought none_left = false
is_bought missing = false

abbrev pub atomic_buy : String → Action Bool
atomic_buy key = redis (λ t w. demo_lua (w.stock key) w key) >>= (λ reply. ret (is_bought reply))
