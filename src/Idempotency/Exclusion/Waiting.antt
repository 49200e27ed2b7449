-- ===== src/Idempotency/Exclusion/Waiting.antt =====
-- The calls that lose the lock wait for its result; `withIdempotency` as a whole.
use flashkart.Base.{
  ℕ, zero, suc, ◌+◌, ◌≤◌, ◌≡◌, refl, Bool, true, false, String, Option, none, some, ltb, Bool-cases,
  inl, inr, if◌then◌else◌, true_not_false,
}
use flashkart.Shared.Replies.{Reply}
use flashkart.Runtime.{Result, ok, err, redis_error, ◌>>=◌}
use flashkart.Runtime.Shares.{Safe, Safe-bind, Safe-fallible}
use flashkart.Runtime.Within.{Within}
use flashkart.Store.{World, Action, IdemEntry}
use flashkart.Idempotency.{
  IdemResult, claim_key, live_entry, get_result, stored, on_reply, poll, poll_rounds,
  poll_timeout_ms, after_claim, with_idempotency, wait_timeout,
}
use flashkart.Idempotency.Exclusion.{
  entry, lock, Answers, Claimed, Untouched, claim_key-Safe, run_first-Safe, lived,
}

module _ (key : String) (start : ℕ) where
  -- A poll finds the result that is stored.
  abbrev Found : Result (Option Reply) → ℕ → World → Type 0
  Found (ok none) c w = c ≡ 0
  Found (ok (some r)) c w = (c ≡ 0) × (stored (entry key start w) ≡ some r)
  Found (err e) c w = c ≡ 0

  found :
      (now : ℕ) (o : Option IdemEntry) (w : World)
      → start ≤ now
      → live_entry (w.idem key) now ≡ o
      → Found (ok (stored o)) 0 w
  found now none w v e = refl
  found now (some x) w v e = found_result x.result refl
    where
      found_result : (o : Option Reply) → x.result ≡ o → Found (ok o) 0 w
      found_result none q = refl
      found_result (some r) q = (refl, rw (lived key start now (w.idem key) x v e) q)

  get_result-Safe : (w : World) → Safe (lock key start) Found (get_result key) 0 w
  unfolding get_result
  get_result-Safe w =
      Safe-fallible (lock key start) Found redis_error _ 0 w (λ v m. refl)
        λ t v m n b.
          (0, (b.0, refl, (λ r h. h)), found t.now (live_entry (v.idem key) t.now) v n.0 refl)

  on_reply-Safe :
      (again : Action IdemResult) (o : Option Reply) (c : ℕ) (w : World)
      → ((v : World) → Safe (lock key start) (Answers key start) again 0 v)
      → Found (ok o) c w
      → Safe (lock key start) (Answers key start) (on_reply again o) c w
  unfolding on_reply
  on_reply-Safe again none c w s k = rw k (λ t v m n b. (0, (b.0, refl, (λ r h. h)), s v))
  on_reply-Safe again (some r) c w s k = (k.1, (λ h. absurd (true_not_false h)))

  round-Safe :
      (now deadline : ℕ) (again : Action IdemResult) (w : World)
      → ((v : World) → Safe (lock key start) (Answers key start) again 0 v)
      → Safe
          (lock key start)
          (Answers key start)
          (if ltb now deadline then get_result key >>= on_reply again else wait_timeout)
          0
          w
  round-Safe now deadline again w s = elim (Bool-cases (ltb now deadline)) [
    | inl e ↦ rw e (
        Safe-bind (lock key start) Found (Answers key start) (get_result key) (on_reply again) 0 w
          (get_result-Safe w) (λ o c v m k. on_reply-Safe again o c v s k) (λ f c v m k. tt))
    | inr e ↦ rw e tt
  ]

  poll-Safe :
      (rounds deadline : ℕ) (w : World)
      → Safe (lock key start) (Answers key start) (poll key rounds deadline) 0 w
  unfolding poll
  poll-Safe zero deadline w = tt
  poll-Safe (suc rounds) deadline w = λ t v m n b.
      (0, (b.0, refl, (λ r h. h)), round-Safe t.now deadline _ v (poll-Safe rounds deadline))

  pub with_idempotency-Safe :
      (fn : Action Reply) (w : World)
      → Within (Untouched key start) fn
      → Safe (lock key start) (Answers key start) (with_idempotency key fn) 0 w
  unfolding with_idempotency after_claim
  with_idempotency-Safe fn w h =
      Safe-bind (lock key start) (Claimed key start) (Answers key start) (claim_key key)
        (after_claim key fn) 0 w (claim_key-Safe key start w) (λ won c v m k. rw k (claimed won v))
        (λ e c v m k. tt)
    where
      claimed :
          (won : Bool) (v : World)
          → Safe
              (lock key start)
              (Answers key start)
              (after_claim key fn won)
              (if won then 2 else 0)
              v
      claimed true v = run_first-Safe key start fn v h
      claimed false v = λ t u m n b.
          (0, (b.0, refl, (λ r h. h)), poll-Safe poll_rounds (t.now + poll_timeout_ms) u)
