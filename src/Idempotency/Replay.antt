-- ===== src/Idempotency/Replay.antt =====
-- Calls of `withIdempotency` one after the other.
use flashkart.Base.{
  ℕ, ◌+◌, ◌<◌, ◌≡◌, true, false, String, Option, none, some, List, [], ◌∷◌, ◌++◌, lt→ltb, eq_refl,
}
use flashkart.Shared.Replies.{Reply}
use flashkart.Runtime.{Tick, Err, ret, throw, ok, err}
use flashkart.Runtime.Pool.{advance, run_alone}
use flashkart.Runtime.Endings.{Ends, run_alone-bind}
use flashkart.Store.{World, Action, IdemEntry}
use flashkart.Idempotency.{
  claim_key, take_lock, live_entry, store_result, release_key, get_result, run_first, on_reply,
  poll, after_claim, with_idempotency, poll_timeout_ms, result_ttl_ms, pending_entry, stored_entry,
  put_idem,
}

-- While a result is stored under the key, a call answers with it: it does not run its function, and
-- it changes nothing.
pub stored_replays :
    (key : String) (fn : Action Reply) (r : Reply) (expires_at : ℕ) (t0 t1 t2 t3 : Tick) (w : World)
    → w.idem key ≡ some (record { result = some r; expires_at = expires_at })
    → (t0.now < expires_at) × (t3.now < expires_at)
    → t2.now < t1.now + poll_timeout_ms
    → (t0.fault ≡ false) × (t3.fault ≡ false)
    → run_alone (t0 ∷ t1 ∷ t2 ∷ t3 ∷ []) (with_idempotency key fn) w
      ≡ (ret (record { replayed = true; value = r }), w)
unfolding run_alone advance with_idempotency claim_key take_lock live_entry after_claim poll
    get_result on_reply
stored_replays key fn r expires_at t0 t1 t2 t3 w e live soon up =
    rw (up.0, e, lt→ltb _ _ live.0, lt→ltb _ _ soon, up.1, e, lt→ltb _ _ live.1)

stored_there : (w : World) (key : String) (e : Option IdemEntry) → (put_idem w key e).idem key ≡ e
stored_there w key none = rw (eq_refl key)
stored_there w key (some e) = rw (eq_refl key)

abbrev pub locked : World → String → ℕ → World
locked w key now = put_idem w key (some (pending_entry now))

-- The first call of a key runs its function with the key locked, and stores the result.
pub first_stores :
    (key : String) (fn : Action Reply) (t0 t1 : Tick) (ts : List Tick) (w w' : World) (r : Reply)
    → live_entry (w.idem key) t0.now ≡ none
    → (t0.fault ≡ false) × (t1.fault ≡ false)
    → Ends fn ts (locked w key t0.now) (ok r) w'
    → run_alone (t0 ∷ ts ++ (t1 ∷ [])) (with_idempotency key fn) w ≡ (
      ret (record { replayed = false; value = r }),
      put_idem w' key (some (stored_entry r t1.now)),
    )
unfolding run_alone advance with_idempotency claim_key take_lock after_claim run_first store_result
first_stores key fn t0 t1 ts w w' r free up h =
    rw (up.0, free, run_alone-bind fn _ _ ts (t1 ∷ []) _ w' (ok r) h, up.1)

-- When a call finds the key free, no other runs meanwhile, and its function fails while the commands
-- on the key succeed, the error goes on and the key is deleted.
pub failure_unlocks :
    (key : String) (fn : Action Reply) (t0 t1 : Tick) (ts : List Tick) (w w' : World) (e : Err)
    → live_entry (w.idem key) t0.now ≡ none
    → (t0.fault ≡ false) × (t1.fault ≡ false)
    → Ends fn ts (locked w key t0.now) (err e) w'
    → run_alone (t0 ∷ ts ++ (t1 ∷ [])) (with_idempotency key fn) w ≡ (throw e, put_idem w' key none)
unfolding run_alone advance with_idempotency claim_key take_lock after_claim run_first release_key
failure_unlocks key fn t0 t1 ts w w' e free up h =
    rw (up.0, free, run_alone-bind fn _ _ ts (t1 ∷ []) _ w' (err e) h, up.1)

-- Of two calls with one key, one after the other within a day, the first of which finds the key free
-- and has a function that comes to a reply, only the first runs its function, and both answer the
-- same, when the commands on the key succeed and the second polls before its deadline.
pub retry_replays :
    (key : String) (fn again : Action Reply) (t0 t1 t2 t3 t4 t5 : Tick) (ts : List Tick)
    (w w' : World) (r : Reply)
    → live_entry (w.idem key) t0.now ≡ none
    → (t0.fault ≡ false) × (t1.fault ≡ false) × (t2.fault ≡ false) × (t5.fault ≡ false)
    → Ends fn ts (locked w key t0.now) (ok r) w'
    → (t2.now < t1.now + result_ttl_ms) × (t5.now < t1.now + result_ttl_ms)
    → t4.now < t3.now + poll_timeout_ms
    → let first = run_alone (t0 ∷ ts ++ (t1 ∷ [])) (with_idempotency key fn) w in
      (first.0 ≡ ret (record { replayed = false; value = r }))
      × (run_alone (t2 ∷ t3 ∷ t4 ∷ t5 ∷ []) (with_idempotency key again) first.1
          ≡ (ret (record { replayed = true; value = r }), first.1))
retry_replays key fn again t0 t1 t2 t3 t4 t5 ts w w' r free up h live soon =
    let once = first_stores key fn t0 t1 ts w w' r free (up.0, up.1) h in
    let twice =
      stored_replays key again r (t1.now + result_ttl_ms) t2 t3 t4 t5
        (put_idem w' key (some (stored_entry r t1.now)))
        (stored_there w' key (some (stored_entry r t1.now))) live soon (up.2, up.3) in
    (rw once, rw once twice)
