-- ===== src/Processes/Shutdown.antt =====
-- What the api's process promises while it boots, serves and shuts down.
use flashkart.Base.{
  ℕ, ◌≡◌, refl, Bool, true, false, Option, none, some, List, [], ◌∷◌, All, arith, Bool-cases, inl,
  inr, ◌∙◌, sym,
}
use flashkart.Runtime.{ret, Tick, Result, Err, fallible, try_catch, ◌>>=◌}
use flashkart.Runtime.Pool.{run_alone, advance}
use flashkart.Runtime.Finishing.{run_alone-ret}
use flashkart.Runtime.Shares.{Reserve, Safe, Safe-bind, Safe-try_catch, Safe-fallible}
use flashkart.Runtime.Shares.Pools.{run-Safe}
use flashkart.Processes.{
  ApiProcess, live, while_alive, now_do, exit_with, boot, close_server, close_realtime,
  disconnect_mongo, close_connections, close_logged, shutdown, ApiEvent, signal, timer, uncaught,
  on_signal, on_timer, react, api_start, life, ping, listen, mongo_lost, mongo_back, redis_lost,
  redis_back, Link, unmade, up, down, ended, lose, regain,
}

-- The process made the connection, and has not closed it.
abbrev pub is_kept : Link → Bool
is_kept up = true
is_kept down = true
is_kept link = false

-- A process that accepts requests keeps its connections.
abbrev pub Serves : ApiProcess → Type 0
Serves w = w.accepting ≡ true → (is_kept w.mongo ≡ true) × (is_kept w.redis ≡ true)

abbrev Closed : ApiProcess → Type 0
Closed w = w.exit ≡ none → w.accepting ≡ false

abbrev door : Reserve ApiProcess
door = record {
  balance = λ w. 0;
  total = 0;
  Inv = Serves;
  Env = λ t. Unit {0};
  Keeps = λ w v. Closed w → Closed v;
  keeps-refl = λ w c. c;
  keeps-trans = λ u v w a b c. b (a c);
}

abbrev Shut : {A : Type 0} → Result A → ℕ → ApiProcess → Type 0
Shut r c w = Closed w

abbrev Any : {R A : Type 0} → R → Result A → ℕ → ApiProcess → Type 0
Any r x c w = Unit {0}

abbrev Step : (ApiProcess → ApiProcess) → ApiProcess → Type 0
Step g v = Serves (live g v) × (Closed v → Closed (live g v))

-- What never opens the door.
abbrev Closes : (ApiProcess → ApiProcess) → Type 0
Closes g = (v : ApiProcess) → v.accepting ≡ false → (g v).accepting ≡ false

live-Step :
    (g : ApiProcess → ApiProcess) (v : ApiProcess) → Closes g → Closed v → Serves v → Step g v
live-Step g v closes closed serves = by_exit v.exit refl
  where
    by_exit :
        (o : Option ℕ)
        → v.exit ≡ o
        → Serves (while_alive o v (g v)) × (Closed v → Closed (while_alive o v (g v)))
    by_exit none e = let shut = closes v (closed e) in ((λ a. cc (a, shut)), λ c h. shut)
    by_exit (some code) e = (serves, λ c. c)

now_do-Safe :
    (g : ApiProcess → ApiProcess) (c : ℕ) (w : ApiProcess)
    → Closes g
    → Closed w
    → Safe door Shut (now_do g) c w
now_do-Safe g c w closes closed = λ t v k n b.
    let s = live-Step g v closes (k closed) b.0 in (c, (s.0, refl, s.1), s.1 (k closed))

await-Safe :
    (e : Err) (g : ApiProcess → ApiProcess) (c : ℕ) (w : ApiProcess)
    → Closes g
    → Closed w
    → Safe door Shut (fallible e (λ t v. (tt, live g v))) c w
await-Safe e g c w closes closed =
    Safe-fallible door Shut e (λ t v. (tt, live g v)) c w (λ v k. k closed)
      λ t v k n b.
        let s = live-Step g v closes (k closed) b.0 in (c, (s.0, refl, s.1), s.1 (k closed))

close_server-Safe : (c : ℕ) (w : ApiProcess) → Safe door Shut close_server c w
close_server-Safe c w =
    λ t v k n b. let s = closed v b.0 v.exit refl in (c, (s.0, refl, (λ _. s.1)), s.1)
  where
    closed :
        (v : ApiProcess)
        → Serves v
        → (o : Option ℕ) → v.exit ≡ o
        → let v' = while_alive o v (record v { accepting = false }) in Serves v' × Closed v'
    closed v serves none e = ((λ a. cc), λ h. refl)
    closed v serves (some code) e = (serves, λ h. cc (e, h))

exit_with-Safe :
    {R : Type 0} (r : R) (code c : ℕ) (w : ApiProcess) → Safe door (Any r) (exit_with code) c w
exit_with-Safe r code c w =
    λ t v k n b. let s = exited v b.0 v.exit refl in (c, (s.0, refl, s.1), tt)
  where
    exited :
        (v : ApiProcess)
        → Serves v
        → (o : Option ℕ) → v.exit ≡ o
        → let v' = while_alive o v (record v { exit = some code }) in
          Serves v' × (Closed v → Closed v')
    exited v serves none e = (serves, λ c h. cc)
    exited v serves (some x) e = (serves, λ c. c)

close_connections-Safe : (c : ℕ) (w : ApiProcess) → Closed w → Safe door Shut close_connections c w
close_connections-Safe c w closed =
    Safe-bind door Shut Shut close_realtime _ c w (await-Safe _ _ c w (λ v h. refl) closed)
      (λ _ c' v k q.
        Safe-bind door Shut Shut disconnect_mongo _ c' v (await-Safe _ _ c' v (λ u h. h) q)
          (λ _ c'' u k' q'. now_do-Safe _ c'' u (λ x h. h) q') (λ e c'' u k' q'. q'))
      (λ e c' v k q. q)

shutdown-Safe : {R : Type 0} (r : R) (c : ℕ) (w : ApiProcess) → Safe door (Any r) shutdown c w
unfolding shutdown
shutdown-Safe r c w =
    Safe-bind door Shut (Any r) close_server (λ _. do _ ← close_logged; exit_with 0) c w
      (close_server-Safe c w)
      (λ _ c' v k q.
        Safe-bind door Shut (Any r) close_logged (λ _. exit_with 0) c' v
          (Safe-try_catch door Shut Shut close_connections (λ e. ret tt) c' v
            (close_connections-Safe c' v q) (λ a b u h. h) (λ e b u h. h))
          (λ _ b u k' q'. exit_with-Safe r 0 b u) (λ e b u k' q'. tt))
      (λ e c' v k q. tt)

is_kept-lose : (l : Link) → is_kept l ≡ true → is_kept (lose l) ≡ true
is_kept-lose unmade h = h
is_kept-lose up h = refl
is_kept-lose down h = refl
is_kept-lose ended h = h

is_kept-regain : (l : Link) → is_kept l ≡ true → is_kept (regain l) ≡ true
is_kept-regain unmade h = h
is_kept-regain up h = refl
is_kept-regain down h = refl
is_kept-regain ended h = h

-- What leaves the door as it is, and keeps the connections that were kept.
link_moves-Safe :
    {R : Type 0} (r : R) (g : ApiProcess → ApiProcess) (c : ℕ) (w : ApiProcess)
    → ((v : ApiProcess) → Serves v → Serves (g v))
    → ((v : ApiProcess) → (g v).accepting ≡ v.accepting)
    → ((v : ApiProcess) → (g v).exit ≡ v.exit)
    → Safe door (Any r) (now_do g) c w
link_moves-Safe r g c w keep same_door same_exit =
    λ t v k n b. let s = moved v b.0 v.exit in (c, (s.0, refl, s.1), tt)
  where
    moved :
        (v : ApiProcess)
        → Serves v
        → (o : Option ℕ) → let v' = while_alive o v (g v) in Serves v' × (Closed v → Closed v')
    moved v serves none = (keep v serves, λ c e. same_door v ∙ c (sym (same_exit v) ∙ e))
    moved v serves (some x) = (serves, λ c. c)

react-Safe : (e : ApiEvent) (w : ApiProcess) → Safe door (Any e) (react e) 0 w
unfolding react
react-Safe signal w = λ t v k n b. (0, (b.0, refl, (λ c. c)), handled v v.handlers)
  where
    handled : (v : ApiProcess) (h : Bool) → Safe door (Any signal) (on_signal h) 0 v
    handled v true = shutdown-Safe signal 0 v
    handled v false = exit_with-Safe signal _ 0 v
react-Safe (timer since) w = λ t v k n b. (0, (b.0, refl, (λ c. c)), rang v _)
  where
    rang : (v : ApiProcess) (early : Bool) → Safe door (Any (timer since)) (on_timer early) 0 v
    rang v true = tt
    rang v false = exit_with-Safe (timer since) 1 0 v
react-Safe uncaught w = exit_with-Safe uncaught 1 0 w
react-Safe mongo_lost w =
    link_moves-Safe mongo_lost (λ p. record p { mongo = lose p.mongo }) 0 w
      (λ v s a. (is_kept-lose v.mongo (s a).0, (s a).1)) (λ v. refl) (λ v. refl)
react-Safe mongo_back w =
    link_moves-Safe mongo_back (λ p. record p { mongo = regain p.mongo }) 0 w
      (λ v s a. (is_kept-regain v.mongo (s a).0, (s a).1)) (λ v. refl) (λ v. refl)
react-Safe redis_lost w =
    link_moves-Safe redis_lost (λ p. record p { redis = lose p.redis }) 0 w
      (λ v s a. ((s a).0, is_kept-lose v.redis (s a).1)) (λ v. refl) (λ v. refl)
react-Safe redis_back w =
    link_moves-Safe redis_back (λ p. record p { redis = regain p.redis }) 0 w
      (λ v s a. ((s a).0, is_kept-regain v.redis (s a).1)) (λ v. refl) (λ v. refl)

-- After the boot failed.
exit-Serves :
    (ts : List Tick) (code : ℕ) (w : ApiProcess)
    → Serves w
    → w.exit ≡ none
    → Serves (run_alone ts (exit_with code) w).1
unfolding run_alone advance
exit-Serves [] code w serves e = serves
exit-Serves (t ∷ ts) code w serves e = rw (e, run_alone-ret ts tt _) serves

boot-Serves : (ts : List Tick) → Serves (run_alone ts boot api_start).1
unfolding run_alone advance boot
boot-Serves [] = λ a. cc
boot-Serves (t ∷ ts) = elim (Bool-cases t.fault) [
  | inl e ↦ rw e (exit-Serves ts 1 _ (λ a. cc) refl)
  | inr e ↦ rw e (pinged ts)
]
  where
    pinged :
        (ts : List Tick)
        → Serves
            (run_alone ts
              (try_catch (do _ ← ping; listen) (λ e. exit_with 1))
              (record api_start { mongo = up })).1
    pinged [] = λ a. cc
    pinged (t ∷ ts) = elim (Bool-cases t.fault) [
      | inl e ↦ rw e (exit-Serves ts 1 _ (λ a. cc) refl)
      | inr e ↦ rw e (served ts)
    ]
      where
        served :
            (ts : List Tick)
            → Serves
                (run_alone ts
                  (try_catch listen (λ e. exit_with 1))
                  (record api_start { mongo = up; redis = up })).1
        served [] = λ a. cc
        served (t ∷ ts) = rw (run_alone-ret ts tt _) (λ a. (refl, refl))

-- At any moment of the life of the api's process, as far as it booted and whichever commands
-- failed, and however the handlers of signals, the timers that force an exit and the exceptions that
-- nobody caught interleave, with connections that are lost and come back: while it accepts requests,
-- it has made its connections to Mongo and to Redis, and has closed neither of them.
pub life-Serves :
    (ts : List Tick) (events : List ApiEvent) (s : List (ℕ × Tick)) → Serves (life ts events s)
unfolding life
life-Serves ts events s =
    let w = (run_alone ts boot api_start).1 in
    (run-Safe door Any (λ r x c v u o k. tt) react w events s (all events w) (always s)
      (boot-Serves ts, omega arith)).1.0
  where
    all : (es : List ApiEvent) (w : ApiProcess) → All (λ e. Safe door (Any e) (react e) 0 w) es
    all [] w = tt
    all (e ∷ es) w = (react-Safe e w, all es w)

    always : (s : List (ℕ × Tick)) → All (λ e. Unit {0}) s
    always [] = tt
    always (e ∷ s) = (tt, always s)

-- From a process that has not exited, and for any five commands and more, whichever fail: a shutdown
-- alone ends with exit code 0, accepts no request any more and, if no command failed, holds no
-- connection.
pub shutdown-exits :
    (t₁ t₂ t₃ t₄ t₅ : Tick) (ts : List Tick) (w : ApiProcess)
    → w.exit ≡ none
    → let w' = (run_alone (t₁ ∷ t₂ ∷ t₃ ∷ t₄ ∷ t₅ ∷ ts) shutdown w).1 in
      (w'.exit ≡ some 0)
      × (w'.accepting ≡ false)
      × (t₂.fault ≡ false
          → t₃.fault ≡ false
          → (w'.sockets ≡ false) × (w'.mongo ≡ ended) × (w'.redis ≡ ended))
unfolding run_alone advance shutdown
shutdown-exits t₁ t₂ t₃ t₄ t₅ ts w e = elim (Bool-cases t₂.fault) [
  | inl a ↦ rw (e, a, run_alone-ret ts tt _) (refl, refl, λ b. cc b)
  | inr a ↦ elim (Bool-cases t₃.fault) [
    | inl b ↦ rw (e, a, b, run_alone-ret ts tt _) (refl, refl, λ _ d. cc d)
    | inr b ↦ rw (e, a, b, run_alone-ret ts tt _) (refl, refl, λ _ _. (refl, refl, refl))
  ]
]
