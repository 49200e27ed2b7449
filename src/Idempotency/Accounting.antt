-- ===== src/Idempotency/Accounting.antt =====
-- An idempotent call owns at its end what the function that it wraps owns, at most.
use flashkart.Base.{
  ℕ, zero, suc, ◌+◌, ◌≡◌, refl, Bool, true, false, String, Option, none, some, ltb, if◌then◌else◌,
  arith, Bool-cases, inl, inr,
}
use flashkart.Shared.Replies.{Reply}
use flashkart.Runtime.{throw, ◌>>=◌}
use flashkart.Runtime.Ledger.{Safe, Safe-bind, Safe-try_catch, Safe-weaken, Safe-local}
use flashkart.Store.{Mongoose, Product, World, Action, IdemEntry}
use flashkart.Inventory.Account.{stock_account}
use flashkart.Inventory.Commands.{Kept, Spent, Kept→Spent}
use flashkart.Inventory.Commands.Neutral.{Neutral, Neutral-bind, Neutral-local, Neutral-command}
use flashkart.Idempotency.{
  IdemResult, claim_key, take_lock, live_entry, store_result, release_key, get_result, run_first,
  on_reply, poll, after_claim, with_idempotency, wait_timeout, poll_rounds, poll_timeout_ms,
}

module _ (m : Mongoose) (catalog : Option Product) (p : ℕ) where
  take_lock-keeps :
      (key : String) (now : ℕ) (e : Option IdemEntry) (w : World)
      → ((take_lock key now e w).1.stock ≡ w.stock)
        × ((take_lock key now e w).1.products ≡ w.products)
        × ((take_lock key now e w).1.reservations ≡ w.reservations)
        × ((take_lock key now e w).1.orders ≡ w.orders)
  unfolding take_lock
  take_lock-keeps key now none w = (refl, refl, refl, refl)
  take_lock-keeps key now (some e) w = (refl, refl, refl, refl)

  claim_key-Neutral : (key : String) → Neutral m catalog p (claim_key key)
  unfolding claim_key
  claim_key-Neutral key =
      Neutral-command m catalog p _ _
        (λ t w. (take_lock-keeps key t.now (live_entry (w.idem key) t.now) w).0)
        (λ t w. (take_lock-keeps key t.now (live_entry (w.idem key) t.now) w).1)
        (λ t w. (take_lock-keeps key t.now (live_entry (w.idem key) t.now) w).2)
        (λ t w. (take_lock-keeps key t.now (live_entry (w.idem key) t.now) w).3)

  store_result-Neutral : (key : String) (r : Reply) → Neutral m catalog p (store_result key r)
  unfolding store_result
  store_result-Neutral key r =
      Neutral-command m catalog p _ _ (λ t w. refl) (λ t w. refl) (λ t w. refl) (λ t w. refl)

  release_key-Neutral : (key : String) → Neutral m catalog p (release_key key)
  unfolding release_key
  release_key-Neutral key =
      Neutral-command m catalog p _ _ (λ t w. refl) (λ t w. refl) (λ t w. refl) (λ t w. refl)

  get_result-Neutral : (key : String) → Neutral m catalog p (get_result key)
  unfolding get_result
  get_result-Neutral key =
      Neutral-command m catalog p _ _ (λ t w. refl) (λ t w. refl) (λ t w. refl) (λ t w. refl)

  on_reply-Neutral :
      (again : Action IdemResult)
      → Neutral m catalog p again
      → (o : Option Reply) → Neutral m catalog p (on_reply again o)
  unfolding on_reply
  on_reply-Neutral again n none = Neutral-local m catalog p _ (λ t w. n)
  on_reply-Neutral again n (some r) = λ c. refl

  round-Neutral :
      (key : String) (now deadline : ℕ) (again : Action IdemResult)
      → Neutral m catalog p again
      → Neutral m catalog p
          (if ltb now deadline then get_result key >>= on_reply again else wait_timeout)
  round-Neutral key now deadline again n = elim (Bool-cases (ltb now deadline)) [
    | inl e ↦ rw e (
        Neutral-bind m catalog p (get_result key) _ (get_result-Neutral key)
          (on_reply-Neutral again n))
    | inr e ↦ rw e (λ c. refl)
  ]

  poll-Neutral :
      (key : String) (rounds deadline : ℕ) → Neutral m catalog p (poll key rounds deadline)
  unfolding poll
  poll-Neutral key zero deadline = λ c. refl
  poll-Neutral key (suc rounds) deadline =
      Neutral-local m catalog p _
        λ t w. round-Neutral key t.now deadline _ (poll-Neutral key rounds deadline)

  module _ (key : String) (fn : Action Reply) (c : ℕ)
      (fn-Safe : Safe (stock_account m catalog p) (Spent m catalog p c) fn c) where
    run_first-Safe : Safe (stock_account m catalog p) (Spent m catalog p c) (run_first key fn) c
    unfolding run_first
    run_first-Safe =
        Safe-try_catch (stock_account m catalog p) (Spent m catalog p {A = IdemResult} c)
          (Spent m catalog p c) _ _ c
          (Safe-bind (stock_account m catalog p) (Spent m catalog p c) (Spent m catalog p c) fn _ c
            fn-Safe
            (λ r d k. rw k (
              Safe-bind (stock_account m catalog p) (Kept m catalog p {A = Unit {0}} c)
                (Spent m catalog p c) (store_result key r) _ c (store_result-Neutral key r c)
                (λ a b h. h) (λ e b h. omega (arith, h))))
            (λ e d k. k))
          (λ r d k. k)
          (λ e d k.
            Safe-bind (stock_account m catalog p) (Kept m catalog p {A = Unit {0}} d)
              (Spent m catalog p c) (release_key key) (λ _. throw e) d (release_key-Neutral key d)
              (λ a b h. omega (arith, k, h)) (λ f b h. omega (arith, k, h)))

    pub with_idempotency-Safe :
        Safe (stock_account m catalog p) (Spent m catalog p c) (with_idempotency key fn) c
    unfolding with_idempotency after_claim
    with_idempotency-Safe =
        Safe-bind (stock_account m catalog p) (Kept m catalog p {A = Bool} c) (Spent m catalog p c)
          (claim_key key) (after_claim key fn) c (claim_key-Neutral key c)
          (λ won d k. rw k (claimed won)) (λ e d k. omega (arith, k))
      where
        claimed :
            (won : Bool)
            → Safe (stock_account m catalog p) (Spent m catalog p c) (after_claim key fn won) c
        claimed true = run_first-Safe
        claimed false =
            Safe-local (stock_account m catalog p) (Spent m catalog p c)
              (λ t w. poll key poll_rounds (t.now + poll_timeout_ms)) c
              λ t w.
                Safe-weaken (stock_account m catalog p) (Kept m catalog p {A = IdemResult} c)
                  (Spent m catalog p c) (poll key poll_rounds (t.now + poll_timeout_ms)) c
                  (poll-Neutral key poll_rounds (t.now + poll_timeout_ms) c)
                  (Kept→Spent m catalog p c)
