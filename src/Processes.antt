-- ===== src/Processes.antt =====
-- The lives of the two processes: api/src/index.ts with connectMongo of api/src/db/mongo.ts, and
-- worker/src/index.ts. A process boots alone, since only its signal handlers run besides, and they
-- are installed at the end of the boot; before that, a signal kills it. What is logged is left out.
pub mod Shutdown
pub mod Jobs
use flashkart.Base.{ℕ, ◌+◌, Bool, true, false, Option, none, some, List, map, ltb, if◌then◌else◌}
use flashkart.Runtime.{
  Proc, ret, act, Tick, mongo_error, redis_error, queue_error, error, fallible, try_catch, ◌>>=◌,
  ◌>>◌,
}
use flashkart.Runtime.Pool.{run, run_alone}

-- A connection that the process has not made yet, or has made and not closed, which may be lost and
-- come back meanwhile (the listeners of api/src/db/mongo.ts and redis.ts), or has closed.
pub data Link : Type 0 where
  unmade up down ended : Link

abbrev pub lose : Link → Link
lose up = down
lose link = link

abbrev pub regain : Link → Link
regain down = up
regain link = link

-- The api's process: its connections, the server and its sockets, and the code it exited with.
pub record ApiProcess : Type 0 where
  pub mongo : Link
  pub redis : Link
  pub accepting : Bool
  pub sockets : Bool
  pub handlers : Bool
  pub exit : Option ℕ

abbrev pub while_alive : {W : Type 0} → Option ℕ → W → W → W
while_alive none w w' = w'
while_alive (some code) w w' = w

-- An exited process does nothing any more.
abbrev pub live : (ApiProcess → ApiProcess) → ApiProcess → ApiProcess
live g w = while_alive w.exit w (g w)

abbrev pub Serving : Type 0 → Type 0
Serving = Proc ApiProcess

abbrev pub now_do : (ApiProcess → ApiProcess) → Serving (Unit {0})
now_do g = act (λ t w. live g w) (λ t w. ret tt)

abbrev pub connect_mongo : Serving (Unit {0})
connect_mongo = fallible mongo_error (λ t w. (tt, live (λ p. record p { mongo = up }) w))

abbrev pub ping : Serving (Unit {0})
ping = fallible redis_error (λ t w. (tt, live (λ p. record p { redis = up }) w))

-- `process.exit(code)`
abbrev pub exit_with : ℕ → Serving (Unit {0})
exit_with code = now_do (λ p. record p { exit = some code })

-- From `app.listen` to the last `process.on`, which wait for nothing.
abbrev pub listen : Serving (Unit {0})
listen = now_do λ p. record p { accepting = true; sockets = true; handlers = true }

-- Both commands of the `Promise.all` are awaited in turn.
abbrev pub api_main : Serving (Unit {0})
api_main = do _ ← connect_mongo; _ ← ping; listen

-- `main().catch(...)`
unfoldable pub boot : Serving (Unit {0})
boot = try_catch api_main (λ e. exit_with 1)

abbrev pub close_server : Serving (Unit {0})
close_server = now_do (λ p. record p { accepting = false })

abbrev pub close_realtime : Serving (Unit {0})
close_realtime =
    fallible (error "realtime")
      (λ t w. (tt, live (λ p. record p { sockets = false; accepting = false }) w))

abbrev pub disconnect_mongo : Serving (Unit {0})
disconnect_mongo = fallible mongo_error (λ t w. (tt, live (λ p. record p { mongo = ended }) w))

abbrev pub disconnect_redis : Serving (Unit {0})
disconnect_redis = now_do (λ p. record p { redis = ended })

abbrev pub close_connections : Serving (Unit {0})
close_connections = do _ ← close_realtime; _ ← disconnect_mongo; disconnect_redis

-- Errors are logged.
abbrev pub close_logged : Serving (Unit {0})
close_logged = try_catch close_connections (λ e. ret tt)

unfoldable pub shutdown : Serving (Unit {0})
shutdown = do _ ← close_server; _ ← close_logged; exit_with 0

abbrev pub force_exit_ms : ℕ
force_exit_ms = 10000

-- What comes to a process that booted: a signal, the timer that a shutdown set, an exception that
-- nobody caught, a connection that is lost or comes back.
pub data ApiEvent : Type 0 where
  signal : ApiEvent
  timer : ℕ → ApiEvent
  uncaught : ApiEvent
  mongo_lost mongo_back redis_lost redis_back : ApiEvent

-- The exit code of a process that SIGTERM killed.
abbrev pub killed : ℕ
killed = 143

abbrev pub on_signal : Bool → Serving (Unit {0})
on_signal true = shutdown
on_signal false = exit_with killed

abbrev pub on_timer : Bool → Serving (Unit {0})
on_timer true = ret tt
on_timer false = exit_with 1

unfoldable pub react : ApiEvent → Serving (Unit {0})
react signal = act (λ t w. w) (λ t w. on_signal w.handlers)
react (timer since) = act (λ t w. w) (λ t w. on_timer (ltb t.now (since + force_exit_ms)))
react uncaught = exit_with 1
react mongo_lost = now_do (λ p. record p { mongo = lose p.mongo })
react mongo_back = now_do (λ p. record p { mongo = regain p.mongo })
react redis_lost = now_do (λ p. record p { redis = lose p.redis })
react redis_back = now_do (λ p. record p { redis = regain p.redis })

abbrev pub api_start : ApiProcess
api_start = record {
  mongo = unmade;
  redis = unmade;
  accepting = false;
  sockets = false;
  handlers = false;
  exit = none;
}

-- The boot as far as it came, and then the events, however they interleave.
unfoldable pub life : List Tick → List ApiEvent → List (ℕ × Tick) → ApiProcess
life ts events s = (run s (map react events) (run_alone ts boot api_start).1).1
