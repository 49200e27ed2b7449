-- ===== src/Idempotency.antt =====
-- api/src/idempotency/idempotency.ts: `withIdempotency` over the keys `idem:<key>`.
pub mod Guarantees
pub mod Accounting
pub mod Replay
pub mod Rounds
pub mod Exclusion
use flashkart.Base.{
  ℕ, zero, suc, ◌+◌, ◌*◌, Bool, true, false, String, Option, none, some, ltb, str_eq, if◌then◌else◌,
}
use flashkart.Shared.Replies.{Reply}
use flashkart.Runtime.{Tick, Err, error, ret, throw, try_catch, ◌>>=◌}
use flashkart.Store.{World, Action, IdemEntry, put_key, redis, date_now, sleep}

abbrev pub result_ttl_ms : ℕ
result_ttl_ms = 24 * 60 * 60 * 1000

abbrev pub lock_ttl_ms : ℕ
lock_ttl_ms = 30 * 1000

abbrev pub poll_timeout_ms : ℕ
poll_timeout_ms = 5000

-- The bound of the recursion that stands for the `while` loop of the poll, which has none itself: a
-- round takes 25 ms at least, so the deadline comes in 200 rounds.
abbrev pub poll_rounds : ℕ
poll_rounds = 201

pub record IdemResult : Type 0 where
  pub replayed : Bool
  pub value : Reply

-- An expired key is missing.
unfoldable pub live_entry : Option IdemEntry → ℕ → Option IdemEntry
live_entry none now = none
live_entry (some e) now = if ltb now e.expires_at then some e else none

abbrev pub put_idem : World → String → Option IdemEntry → World
put_idem w key (some e) = record w { idem = put_key w.idem key e }
put_idem w key none = record w { idem = λ k. if str_eq key k then none else w.idem k }

abbrev pub pending_entry : ℕ → IdemEntry
pending_entry now = record { result = none; expires_at = now + lock_ttl_ms }

abbrev pub stored_entry : Reply → ℕ → IdemEntry
stored_entry r now = record { result = some r; expires_at = now + result_ttl_ms }

-- `SET key __pending__ EX 30 NX`, on the live entry.
unfoldable pub take_lock : String → ℕ → Option IdemEntry → World → Bool × World
take_lock key now none w = (true, put_idem w key (some (pending_entry now)))
take_lock key now (some e) w = (false, w)

unfoldable pub claim_key : String → Action Bool
unfolding live_entry take_lock
claim_key key = redis λ t w. take_lock key t.now (live_entry (w.idem key) t.now) w

unfoldable pub store_result : String → Reply → Action (Unit {0})
store_result key r = redis λ t w. (tt, put_idem w key (some (stored_entry r t.now)))

unfoldable pub release_key : String → Action (Unit {0})
release_key key = redis λ t w. (tt, put_idem w key none)

abbrev pub stored : Option IdemEntry → Option Reply
stored none = none
stored (some e) = e.result

-- `GET key`: the stored result, and nothing while the key is missing or pending.
unfoldable pub get_result : String → Action (Option Reply)
unfolding live_entry
get_result key = redis λ t w. (stored (live_entry (w.idem key) t.now), w)

unfoldable pub run_first : String → Action Reply → Action IdemResult
unfolding store_result release_key
run_first key fn =
    try_catch
      (do
        result ← fn
        _ ← store_result key result
        ret (record { replayed = false; value = result }))
      (λ e. release_key key >>= (λ _. throw e))

abbrev pub wait_timeout : Action IdemResult
wait_timeout = throw (error "idempotency wait timeout")

unfoldable pub on_reply : Action IdemResult → Option Reply → Action IdemResult
on_reply again none = sleep >>= (λ _. again)
on_reply again (some r) = ret (record { replayed = true; value = r })

unfoldable pub poll : String → ℕ → ℕ → Action IdemResult
unfolding get_result on_reply
poll key zero deadline = wait_timeout
poll key (suc rounds) deadline = date_now >>= (λ now.
    if ltb now deadline
    then get_result key >>= on_reply (poll key rounds deadline)
    else wait_timeout)

unfoldable pub after_claim : String → Action Reply → Bool → Action IdemResult
unfolding run_first poll
after_claim key fn true = run_first key fn
after_claim key fn false = date_now >>= (λ now. poll key poll_rounds (now + poll_timeout_ms))

unfoldable pub with_idempotency : String → Action Reply → Action IdemResult
unfolding claim_key after_claim
with_idempotency key fn = claim_key key >>= after_claim key fn
