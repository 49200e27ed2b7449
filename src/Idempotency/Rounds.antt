-- ===== src/Idempotency/Rounds.antt =====
-- The rounds that the model gives to the poll of `withIdempotency`.
use flashkart.Base.{
  ℕ, zero, suc, ◌+◌, ◌*◌, ◌≤◌, ◌≡◌, refl, Bool, true, false, String, Option, none, some, List, [],
  ◌∷◌, ltb, ltb→lt, arith, if◌then◌else◌,
}
use flashkart.Shared.Replies.{Reply}
use flashkart.Runtime.{Tick, Result, ◌>>=◌, lift, outcome, redis_error}
use flashkart.Runtime.Endings.{Ends}
use flashkart.Store.{World, Action}
use flashkart.Idempotency.{
  IdemResult, get_result, on_reply, poll, poll_rounds, poll_timeout_ms, wait_timeout, live_entry,
  stored,
}

-- Of the three times of a round, its check, its `GET` and its wait, the first is 25 ms at least after
-- that of the round before.
abbrev pub Paced : ℕ → List Tick → Type 0
Paced from [] = Unit {0}
Paced from (t ∷ []) = from ≤ t.now
Paced from (t ∷ t1 ∷ []) = from ≤ t.now
Paced from (t ∷ t1 ∷ t2 ∷ ts) = (from ≤ t.now) × Paced (t.now + 25) ts

-- `q` comes to every end that `p` comes to, at these times.
abbrev Follows : Action IdemResult → Action IdemResult → List Tick → Type 0
Follows p q ts = (w w' : World) (r : Result IdemResult) → Ends p ts w r w' → Ends q ts w r w'

on_reply-Follows :
    (p q : Action IdemResult) (o : Option Reply) (t : Tick) (ts : List Tick)
    → Follows p q ts
    → Follows (on_reply p o) (on_reply q o) (t ∷ ts)
unfolding on_reply
on_reply-Follows p q none t ts f = f
on_reply-Follows p q (some x) t ts f = λ w w' r e. e

on_reply-Follows_end :
    (p q : Action IdemResult) (o : Option Reply) → Follows (on_reply p o) (on_reply q o) []
unfolding on_reply
on_reply-Follows_end p q none = λ w w' r e. absurd e
on_reply-Follows_end p q (some x) = λ w w' r e. e

replied-Follows :
    (b : Bool) (o : Option Reply) (w w₁ w' : World) (p q : Action IdemResult) (ts : List Tick)
    (r : Result IdemResult)
    → Follows (on_reply p o) (on_reply q o) ts
    → Ends
        (lift (outcome redis_error b (o, w) w₁).0 >>= on_reply p)
        ts
        (outcome redis_error b (o, w) w₁).1
        r
        w'
    → Ends
        (lift (outcome redis_error b (o, w) w₁).0 >>= on_reply q)
        ts
        (outcome redis_error b (o, w) w₁).1
        r
        w'
replied-Follows true o w w₁ w' p q ts r f e = e
replied-Follows false o w w₁ w' p q ts r f e = f w w' r e

get-Follows :
    (key : String) (p q : Action IdemResult) (t : Tick) (ts : List Tick)
    → ((o : Option Reply) → Follows (on_reply p o) (on_reply q o) ts)
    → Follows (get_result key >>= on_reply p) (get_result key >>= on_reply q) (t ∷ ts)
unfolding get_result
get-Follows key p q t ts f = λ w w' r e.
    replied-Follows t.fault (stored (live_entry (w.idem key) t.now)) w w w' p q ts r (f _) e

get-Follows_end :
    (key : String) (p q : Action IdemResult)
    → Follows (get_result key >>= on_reply p) (get_result key >>= on_reply q) []
unfolding get_result
get-Follows_end key p q = λ w w' r e. absurd e

round-Follows :
    (b : Bool) (p q : Action IdemResult) (ts : List Tick)
    → (b ≡ true → Follows p q ts)
    → Follows (if b then p else wait_timeout) (if b then q else wait_timeout) ts
round-Follows true p q ts f = f refl
round-Follows false p q ts f = λ w w' r e. e

poll-Follows :
    (key : String) (n more deadline from : ℕ) (ts : List Tick)
    → n ≤ more
    → deadline ≤ from + 25 * n
    → Paced from ts
    → Follows (poll key (suc more) deadline) (poll key (suc n) deadline) ts
unfolding poll
poll-Follows key n more deadline from [] le d p = λ w w' r e. absurd e
poll-Follows key n more deadline from (t ∷ []) le d p = λ w.
    round-Follows (ltb t.now deadline) _ _ []
      (λ early. get-Follows_end key (poll key more deadline) (poll key n deadline)) w
poll-Follows key n more deadline from (t ∷ t1 ∷ []) le d p = λ w.
    round-Follows (ltb t.now deadline) _ _ (t1 ∷ [])
      (λ early. get-Follows key _ _ t1 [] (on_reply-Follows_end _ _)) w
poll-Follows key zero more deadline from (t ∷ t1 ∷ t2 ∷ ts) le d p = λ w.
    round-Follows (ltb t.now deadline) _ _ (t1 ∷ t2 ∷ ts)
      (λ early. absurd (omega (arith, ltb→lt t.now deadline early, d, p.0))) w
poll-Follows key (suc n) zero deadline from (t ∷ t1 ∷ t2 ∷ ts) le d p = absurd (omega (arith, le))
poll-Follows key (suc n) (suc more) deadline from (t ∷ t1 ∷ t2 ∷ ts) le d p = λ w.
    round-Follows (ltb t.now deadline) _ _ (t1 ∷ t2 ∷ ts)
      (λ early. get-Follows key _ _ t1 (t2 ∷ ts) λ o. on_reply-Follows _ _ o t2 ts (
        poll-Follows key n more deadline (t.now + 25) ts (omega (arith, le)) (omega (arith, d, p.0))
          p.1))
      w

-- When each round begins 25 ms at least after the one before, whatever end the poll of a call that
-- began at `from` comes to with any more rounds, it comes to with the rounds that it is given.
pub poll_rounds-enough :
    (key : String) (more from : ℕ) (ts : List Tick) (w w' : World) (r : Result IdemResult)
    → poll_rounds ≤ suc more
    → Paced from ts
    → Ends (poll key (suc more) (from + poll_timeout_ms)) ts w r w'
    → Ends (poll key poll_rounds (from + poll_timeout_ms)) ts w r w'
poll_rounds-enough key more from ts w w' r le p e =
    poll-Follows key 200 more (from + poll_timeout_ms) from ts (omega (arith, le)) (omega arith) p w
      w' r e
