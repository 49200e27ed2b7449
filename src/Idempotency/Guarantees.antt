-- ===== src/Idempotency/Guarantees.antt =====
-- `withIdempotency` makes no change of the machine but those of the function that it is given.
use flashkart.Base.{ℕ, zero, suc, refl, Bool, true, false, String, Option, none, some, ltb}
use flashkart.Shared.Replies.{Reply}
use flashkart.Runtime.{redis_error}
use flashkart.Runtime.Guarantee.{returns, throws, Guar-bind, Guar-try_catch, Guar-if}
use flashkart.Store.{Mongoose, World, Action, IdemEntry}
use flashkart.Machine.{Change, keeps, aside}
use flashkart.Machine.Rules.{Lawful, Lawful-command, Lawful-read}
use flashkart.Idempotency.{
  take_lock, claim_key, store_result, release_key, get_result, run_first, on_reply, poll,
  IdemResult, poll_rounds, after_claim, with_idempotency,
}

take_lock-Change :
    {m : Mongoose}
    → (key : String) (now : ℕ) (e : Option IdemEntry) (w : World)
    → Change m w (take_lock key now e w).1
unfolding take_lock
take_lock-Change key now none w = aside _ (refl, refl, refl, refl, refl)
take_lock-Change key now (some e) w = keeps

claim_key-Lawful : {m : Mongoose} → (key : String) → Lawful m (claim_key key)
unfolding claim_key
claim_key-Lawful key = Lawful-command redis_error _ (λ t w. take_lock-Change key t.now _ w)

store_result-Lawful : {m : Mongoose} → (key : String) (r : Reply) → Lawful m (store_result key r)
unfolding store_result
store_result-Lawful key r =
    Lawful-command redis_error _ (λ t w. aside _ (refl, refl, refl, refl, refl))

release_key-Lawful : {m : Mongoose} → (key : String) → Lawful m (release_key key)
unfolding release_key
release_key-Lawful key =
    Lawful-command redis_error _ (λ t w. aside _ (refl, refl, refl, refl, refl))

get_result-Lawful : {m : Mongoose} → (key : String) → Lawful m (get_result key)
unfolding get_result
get_result-Lawful key = Lawful-command redis_error _ (λ t w. keeps)

run_first-Lawful :
    {m : Mongoose} → (key : String) (fn : Action Reply) → Lawful m fn → Lawful m (run_first key fn)
unfolding run_first
run_first-Lawful key fn h =
    Guar-try_catch (Guar-bind h (λ r. Guar-bind (store_result-Lawful key r) (λ _. returns)))
      (λ e. Guar-bind (release_key-Lawful key) (λ _. throws))

on_reply-Lawful :
    {m : Mongoose}
    → (again : Action IdemResult) (r : Option Reply) → Lawful m again
    → Lawful m (on_reply again r)
unfolding on_reply
on_reply-Lawful again none h = Lawful-read (λ t w. h)
on_reply-Lawful again (some r) h = returns

poll-Lawful :
    {m : Mongoose} → (key : String) (rounds deadline : ℕ) → Lawful m (poll key rounds deadline)
unfolding poll
poll-Lawful key zero deadline = throws
poll-Lawful key (suc rounds) deadline = Lawful-read λ t w.
    Guar-if (ltb t.now deadline)
      (Guar-bind (get_result-Lawful key)
        (λ r. on_reply-Lawful _ r (poll-Lawful key rounds deadline)))
      throws

after_claim-Lawful :
    {m : Mongoose}
    → (key : String) (fn : Action Reply) (b : Bool) → Lawful m fn
    → Lawful m (after_claim key fn b)
unfolding after_claim
after_claim-Lawful key fn true h = run_first-Lawful key fn h
after_claim-Lawful key fn false h = Lawful-read (λ t w. poll-Lawful key poll_rounds _)

pub with_idempotency-Lawful :
    {m : Mongoose}
    → (key : String) (fn : Action Reply) → Lawful m fn
    → Lawful m (with_idempotency key fn)
unfolding with_idempotency
with_idempotency-Lawful key fn h =
    Guar-bind (claim_key-Lawful key) (λ b. after_claim-Lawful key fn b h)
