-- ===== src/Tests/Lives.antt =====
-- An api that is told twice to stop, and a worker that cannot close a queue.
use flashkart.Base.{ℕ, ◌≡◌, ◌⊎◌, refl, true, false, some, none, List, [], ◌∷◌}
use flashkart.Runtime.{Tick}
use flashkart.Runtime.Pool.{run_alone}
use flashkart.Processes.{ApiEvent, signal, timer, mongo_lost, life}
use flashkart.Processes.Shutdown.{Serves, life-Serves}
use flashkart.Processes.Jobs.{WorkerProcess, worker_shutdown, IsIdle, worker_shutdown-exits}
use flashkart.Tests.Setup.{at, down}

abbrev booting : List Tick
booting = at 0 0 ∷ at 1 0 ∷ at 2 0 ∷ []

abbrev told_twice : List ApiEvent
told_twice = signal ∷ signal ∷ timer 100 ∷ mongo_lost ∷ []

abbrev stopping : List (ℕ × Tick)
stopping =
    (3, at 99 0)
    ∷ (0, at 100 0)
    ∷ (1, at 101 0)
    ∷ (0, at 102 0)
    ∷ (0, down 103)
    ∷ (1, at 104 0)
    ∷ (2, at 105 0)
    ∷ (0, at 106 0)
    ∷ []

life-Serves_example : Serves (life booting told_twice stopping)
life-Serves_example = life-Serves booting told_twice stopping

abbrev at_work : WorkerProcess
at_work = record {
  mongo = true;
  redis = true;
  sweeper = true;
  pipeline = true;
  fulfill_queue = true;
  notify_queue = true;
  handlers = true;
  exit = none;
}

worker_shutdown-exits_example :
    let w' =
      (run_alone
        (at 1 0 ∷ at 2 0 ∷ down 3 ∷ at 4 0 ∷ at 5 0 ∷ at 6 0 ∷ at 7 0 ∷ [])
        worker_shutdown
        at_work).1 in
    (w'.sweeper ≡ false)
    × (((w'.exit ≡ some 0) × IsIdle w')
        ⊎ ((w'.exit ≡ some 1)
            × ((false ≡ true) ⊎ ((true ≡ true) ⊎ ((false ≡ true) ⊎ (false ≡ true))))))
worker_shutdown-exits_example =
    worker_shutdown-exits (at 1 0) (at 2 0) (down 3) (at 4 0) (at 5 0) (at 6 0) (at 7 0) [] at_work
      refl
