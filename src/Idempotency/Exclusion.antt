-- ===== src/Idempotency/Exclusion.antt =====
-- Concurrent calls with one key, while no lock expires: the clock stays within the lifetime of a lock
-- from `start` on, and whatever the key held at first was expired, or lasts as long.
pub mod Waiting
use flashkart.Base.{
  ℕ, zero, suc, ◌+◌, ◌≤◌, ◌<◌, ◌≡◌, refl, Bool, true, false, String, Option, none, some, ltb, arith,
  eq_refl, Bool-cases, inl, inr, if◌then◌else◌, true_not_false, lt→ltb,
}
use flashkart.Shared.Replies.{Reply}
use flashkart.Runtime.{Tick, Result, ok, err, redis_error, ◌>>=◌}
use flashkart.Runtime.Shares.{
  Reserve, Before, After, Safe, Safe-bind, Safe-try_catch, Safe-fallible, Within-Safe,
}
use flashkart.Runtime.Within.{Within}
use flashkart.Store.{World, Action, IdemEntry, put_key}
use flashkart.Idempotency.{
  IdemResult, lock_ttl_ms, claim_key, take_lock, live_entry, pending_entry, stored_entry,
  store_result, release_key, get_result, stored, run_first, on_reply, poll, poll_rounds,
  poll_timeout_ms, after_claim, with_idempotency, wait_timeout,
}

-- A free key has both units, and a stored result one; the rest is with the call that took the lock.
abbrev pub units_of : Option Reply → ℕ
units_of none = 0
units_of (some r) = 1

pub units_of-le : (o : Option Reply) → units_of o ≤ 1
units_of-le none = omega arith
units_of-le (some r) = omega arith

abbrev pub units : Option IdemEntry → ℕ
units none = 2
units (some e) = units_of e.result

unlocked_result : (o : Option Reply) (r : Reply) → units_of o ≡ 0 → o ≡ some r → ⊥
unlocked_result none r u h = cc
unlocked_result (some x) r u h = omega (arith, u)

module _ (key : String) (start : ℕ) where
  -- What the key held or holds, unless it was expired at the start.
  abbrev pub entry : World → Option IdemEntry
  entry w = live_entry (w.idem key) start

  abbrev pub IsSteady : Option IdemEntry → Type 0
  IsSteady none = Unit {0}
  IsSteady (some e) = ltb start e.expires_at ≡ true → start + lock_ttl_ms ≤ e.expires_at

  -- A stored result stays.
  abbrev pub Keeps : World → World → Type 0
  Keeps w w' = (r : Reply) → stored (entry w) ≡ some r → stored (entry w') ≡ some r

  abbrev pub lock : Reserve World
  lock = record {
    balance = λ w. units (entry w);
    total = 2;
    Inv = λ w. IsSteady (w.idem key);
    Env = λ t. (start ≤ t.now) × (t.now < start + lock_ttl_ms);
    Keeps = Keeps;
    keeps-refl = λ w r h. h;
    keeps-trans = λ u v w a b r h. b r (a r h);
  }

  -- A fresh entry of the key outlives the window.
  put_key-IsSteady :
      (f : String → Option IdemEntry) (e : IdemEntry)
      → start + lock_ttl_ms ≤ e.expires_at
      → IsSteady (put_key f key e key) × (live_entry (put_key f key e key) start ≡ some e)
  unfolding live_entry
  put_key-IsSteady f e h =
      rw (eq_refl key, lt→ltb start e.expires_at (omega (arith, h))) ((λ _. h), refl)

  -- What is expired within the window was expired at its start.
  expired :
      (now : ℕ) (o : Option IdemEntry)
      → now < start + lock_ttl_ms
      → IsSteady o
      → live_entry o now ≡ none
      → live_entry o start ≡ none
  unfolding live_entry
  expired now none v steady h = refl
  expired now (some e) v steady h = elim (Bool-cases (ltb start e.expires_at)) [
    | inl live ↦ absurd (ground (arith, steady live))
    | inr q ↦ rw q refl
  ]

  -- What lives within the window lived at its start.
  pub lived :
      (now : ℕ) (o : Option IdemEntry) (e : IdemEntry)
      → start ≤ now
      → live_entry o now ≡ some e
      → live_entry o start ≡ some e
  unfolding live_entry
  lived now none e v h = cc
  lived now (some x) e v h = ground arith

  abbrev pub Claimed : Result Bool → ℕ → World → Type 0
  Claimed (ok won) c w = c ≡ (if won then 2 else 0)
  Claimed (err e) c w = c ≡ 0

  take_lock-After :
      (t : Tick) (w : World) (o : Option IdemEntry)
      → live_entry (w.idem key) t.now ≡ o
      → (start ≤ t.now) × (t.now < start + lock_ttl_ms)
      → Before lock 0 w
      → let r = take_lock key t.now o w in (c : ℕ) × After lock 0 w c r.1 × Claimed (ok r.0) c r.1
  unfolding take_lock
  take_lock-After t w none e v b =
      let p = put_key-IsSteady w.idem (pending_entry t.now) (omega (arith, v.0)) in
      let free = expired t.now (w.idem key) v.1 b.0 e in
      (2, (p.0, rw (p.1, free) refl, rw free (λ r h. cc)), refl)
  take_lock-After t w (some x) e v b = (0, (b.0, refl, (λ r h. h)), refl)

  pub claim_key-Safe : (w : World) → Safe lock Claimed (claim_key key) 0 w
  unfolding claim_key
  claim_key-Safe w =
      Safe-fallible lock Claimed redis_error _ 0 w (λ v m. refl)
        (λ t v m n b. take_lock-After t v (live_entry (v.idem key) t.now) refl n b)

  -- An answer is the result that the key holds; a call that ran its function keeps a unit for good.
  abbrev pub Answers : Result IdemResult → ℕ → World → Type 0
  Answers (ok r) c w = (stored (entry w) ≡ some r.value) × (r.replayed ≡ false → c ≡ 1)
  Answers (err e) c w = Unit {0}

  abbrev Kept : {A : Type 0} → ℕ → Result A → ℕ → World → Type 0
  Kept c r c' w = c' ≡ c

  -- The owner of both units finds its lock.
  locked : (w : World) (o : Option IdemEntry) → entry w ≡ o → Before lock 2 w → units o ≡ 0
  locked w o e b = rw (← e) (omega (arith, b.1))

  unlocked : (o : Option IdemEntry) (r : Reply) → units o ≡ 0 → stored o ≡ some r → ⊥
  unlocked none r u h = cc
  unlocked (some e) r u h = unlocked_result e.result r u h

  abbrev Stored : Reply → Result (Unit {0}) → ℕ → World → Type 0
  Stored r (ok u) c w = (c ≡ 1) × (stored (entry w) ≡ some r)
  Stored r (err e) c w = c ≡ 2

  store_result-Safe : (r : Reply) (w : World) → Safe lock (Stored r) (store_result key r) 2 w
  unfolding store_result
  store_result-Safe r w =
      Safe-fallible lock (Stored r) redis_error _ 2 w (λ v m. refl)
        λ t v m n b.
          let p = put_key-IsSteady v.idem (stored_entry r t.now) (omega (arith, n.0)) in
          let none_stored = locked v (entry v) refl b in
          (
            1,
            (p.0, rw (p.1, none_stored) refl, (λ x h. absurd (unlocked (entry v) x none_stored h))),
            (refl, rw p.1 refl),
          )

  release_key-Safe : (w : World) → Safe lock (λ r c v. Unit {0}) (release_key key) 2 w
  unfolding release_key live_entry
  release_key-Safe w =
      Safe-fallible lock (λ r c v. Unit {0}) redis_error _ 2 w (λ v m. tt)
        λ t v m n b.
          let none_stored = locked v (entry v) refl b in
          (
            0,
            rw (eq_refl key, none_stored)
                (tt, refl, (λ x h. absurd (unlocked (entry v) x none_stored h))),
            tt,
          )

  abbrev pub Untouched : World → World → Type 0
  Untouched w w' = w'.idem key ≡ w.idem key

  pub Untouched-keeps :
      (w w' : World)
      → Untouched w w'
      → IsSteady (w.idem key)
      → IsSteady (w'.idem key) × (lock.balance w' ≡ lock.balance w) × Keeps w w'
  Untouched-keeps w w' e s = rw e (s, refl, (λ r h. h))

  -- Within the `try`.
  abbrev Ran : Result IdemResult → ℕ → World → Type 0
  Ran (ok r) c w = (c ≡ 1) × (stored (entry w) ≡ some r.value)
  Ran (err e) c w = c ≡ 2

  pub run_first-Safe :
      (fn : Action Reply) (w : World)
      → Within Untouched fn
      → Safe lock Answers (run_first key fn) 2 w
  unfolding run_first
  run_first-Safe fn w h =
      Safe-try_catch lock Ran Answers _ _ 2 w
        (Safe-bind lock (Kept 2) Ran fn _ 2 w (Within-Safe lock 2 Untouched-keeps h w)
          (λ r c v m k. rw k (
            Safe-bind lock (Stored r) Ran (store_result key r) _ 2 v (store_result-Safe r v)
              (λ a c' u l q. q) (λ e c' u l q. q)))
          (λ e c v m k. k))
        (λ r c v k. (k.1, (λ _. k.0)))
        (λ e c v k. rw k (
          Safe-bind lock (λ r c' u. Unit {0}) Answers (release_key key) _ 2 v (release_key-Safe v)
            (λ a c' u l q. tt) (λ f c' u l q. tt)))
