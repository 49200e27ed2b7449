-- ===== src/Processes/Jobs.antt =====
-- worker/src/index.ts: the boot of the worker's process and its shutdown, which catches nothing.
use flashkart.Base.{
  ℕ, ◌≡◌, ◌⊎◌, refl, Bool, true, false, Option, none, some, List, ◌∷◌, Bool-cases, inl, inr,
}
use flashkart.Runtime.{
  Proc, act, ret, Tick, fallible, try_catch, ◌>>=◌, mongo_error, redis_error, queue_error,
}
use flashkart.Runtime.Pool.{run_alone, advance}
use flashkart.Runtime.Finishing.{run_alone-ret}
use flashkart.Processes.{while_alive}

-- Its connections, the sweeper, the workers of the pipeline, and the queues it puts jobs in.
pub record WorkerProcess : Type 0 where
  pub mongo : Bool
  pub redis : Bool
  pub sweeper : Bool
  pub pipeline : Bool
  pub fulfill_queue : Bool
  pub notify_queue : Bool
  pub handlers : Bool
  pub exit : Option ℕ

abbrev pub Working : Type 0 → Type 0
Working = Proc WorkerProcess

abbrev pub in_process : (WorkerProcess → WorkerProcess) → WorkerProcess → WorkerProcess
in_process g w = while_alive w.exit w (g w)

abbrev pub at_once : (WorkerProcess → WorkerProcess) → Working (Unit {0})
at_once g = act (λ t w. in_process g w) (λ t w. ret tt)

-- `process.exit(code)`
abbrev pub worker_exit : ℕ → Working (Unit {0})
worker_exit code = at_once (λ p. record p { exit = some code })

abbrev pub connect_worker : Working (Unit {0})
connect_worker = fallible mongo_error (λ t w. (tt, in_process (λ p. record p { mongo = true }) w))

abbrev pub worker_ping : Working (Unit {0})
worker_ping = fallible redis_error (λ t w. (tt, in_process (λ p. record p { redis = true }) w))

-- From `startReservationSweeper` to the last `process.on`, which wait for nothing.
abbrev pub start_work : Working (Unit {0})
start_work = at_once λ p. record p {
  sweeper = true;
  pipeline = true;
  fulfill_queue = true;
  notify_queue = true;
  handlers = true;
}

abbrev pub worker_main : Working (Unit {0})
worker_main = do _ ← connect_worker; _ ← worker_ping; start_work

-- `main().catch(...)`
unfoldable pub worker_boot : Working (Unit {0})
worker_boot = try_catch worker_main (λ e. worker_exit 1)

abbrev pub stop_sweeper : Working (Unit {0})
stop_sweeper = at_once (λ p. record p { sweeper = false })

-- The three workers of the pipeline close together.
abbrev pub stop_pipeline : Working (Unit {0})
stop_pipeline =
    fallible queue_error (λ t w. (tt, in_process (λ p. record p { pipeline = false }) w))

abbrev pub close_fulfill : Working (Unit {0})
close_fulfill =
    fallible queue_error (λ t w. (tt, in_process (λ p. record p { fulfill_queue = false }) w))

abbrev pub close_notify : Working (Unit {0})
close_notify =
    fallible queue_error (λ t w. (tt, in_process (λ p. record p { notify_queue = false }) w))

abbrev pub leave_mongo : Working (Unit {0})
leave_mongo = fallible mongo_error (λ t w. (tt, in_process (λ p. record p { mongo = false }) w))

abbrev pub leave_redis : Working (Unit {0})
leave_redis = at_once (λ p. record p { redis = false })

-- `void shutdown(...)`: Node ends a process with code 1 at a rejection that nobody handles.
unfoldable pub worker_shutdown : Working (Unit {0})
worker_shutdown =
    try_catch
      (do
        _ ← stop_sweeper
        _ ← stop_pipeline
        _ ← close_fulfill
        _ ← close_notify
        _ ← leave_mongo
        _ ← leave_redis
        worker_exit 0)
      (λ e. worker_exit 1)

abbrev pub IsIdle : WorkerProcess → Type 0
IsIdle w =
    (w.sweeper ≡ false)
    × (w.pipeline ≡ false)
    × (w.fulfill_queue ≡ false)
    × (w.notify_queue ≡ false)
    × (w.mongo ≡ false)
    × (w.redis ≡ false)

-- From a process that has not exited, and for any seven commands and more, whichever fail: a
-- shutdown alone stops the sweeper and ends the process, either with code 0, and then the pipeline
-- is stopped and every queue and connection closed, or with code 1, and then a command failed.
pub worker_shutdown-exits :
    (t₁ t₂ t₃ t₄ t₅ t₆ t₇ : Tick) (ts : List Tick) (w : WorkerProcess)
    → w.exit ≡ none
    → let w' = (run_alone (t₁ ∷ t₂ ∷ t₃ ∷ t₄ ∷ t₅ ∷ t₆ ∷ t₇ ∷ ts) worker_shutdown w).1 in
      (w'.sweeper ≡ false)
      × (((w'.exit ≡ some 0) × IsIdle w')
          ⊎ ((w'.exit ≡ some 1)
              × ((t₂.fault ≡ true)
                  ⊎ ((t₃.fault ≡ true) ⊎ ((t₄.fault ≡ true) ⊎ (t₅.fault ≡ true))))))
unfolding run_alone advance worker_shutdown
worker_shutdown-exits t₁ t₂ t₃ t₄ t₅ t₆ t₇ ts w e = elim (Bool-cases t₂.fault) [
  | inl a ↦ rw (e, a, run_alone-ret ts tt _) (refl, inr (refl, inl refl))
  | inr a ↦ elim (Bool-cases t₃.fault) [
    | inl b ↦ rw (e, a, b, run_alone-ret ts tt _) (refl, inr (refl, inr (inl refl)))
    | inr b ↦ elim (Bool-cases t₄.fault) [
      | inl c ↦ rw (e, a, b, c, run_alone-ret ts tt _) (refl, inr (refl, inr (inr (inl refl))))
      | inr c ↦ elim (Bool-cases t₅.fault) [
        | inl d ↦ rw (e, a, b, c, d, run_alone-ret ts tt _) (refl, inr (refl, inr (inr (inr refl))))
        | inr d ↦
            rw (e, a, b, c, d, run_alone-ret ts tt _)
              (refl, inl (refl, (refl, refl, refl, refl, refl, refl)))
      ]
    ]
  ]
]
