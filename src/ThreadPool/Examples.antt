-- ===== src/ThreadPool/Examples.antt =====
-- A pool of frameworks/threadpool/ThreadPool.cpp with two threads.
use zeus_os.Base.{◌≡◌, refl, inl, inr, List, [], ◌∷◌, ◌++◌, arith}
use zeus_os.ThreadPool.{
  at_lock, running, exited, Pool, new_pool, started, stopped, start, add_task, signal, look,
  create_threads, stopping,
}
use zeus_os.ThreadPool.Steps.{
  Event, quiet, opened, entered, picked, add, take_lock, start_pool, Run, stay, go_on,
}
use zeus_os.ThreadPool.Queue.{entries, picks, queue_order}
use zeus_os.ThreadPool.Wakeups.{IsAwake, Run-IsAwake}
use zeus_os.ThreadPool.Limits.{IsWithin, Run-IsWithin, stopped_pool-idle}

abbrev configured : Pool
configured = record new_pool { pool_size = 2; task_size_limit = 4 }

abbrev opened_pool : Pool
opened_pool = record configured { pool_state = started; threads = at_lock ∷ at_lock ∷ [] }

abbrev loaded : Pool
loaded = record opened_pool { tasks = 7 ∷ [] }

abbrev busy : Pool
busy = record opened_pool { threads = running 7 ∷ at_lock ∷ [] }

abbrev events : List Event
events = opened ∷ entered 7 ∷ picked 7 ∷ []

served : Run configured events busy
unfolding start create_threads add_task signal look
served = go_on configured opened_pool busy opened _ (start_pool (λ i. 0) configured refl) (
    go_on opened_pool loaded busy (entered 7) _ (add 7 0 opened_pool)
      (go_on loaded busy busy (picked 7) [] (take_lock [] (at_lock ∷ []) loaded refl) (stay busy)))

queue_order_example : configured.tasks ++ entries events ≡ picks events ++ busy.tasks
queue_order_example = queue_order configured busy events served

configured-IsAwake : IsAwake configured
configured-IsAwake = record {
  live = λ n l. absurd (omega arith);
  drained = λ e. inr refl;
  halted = inl refl;
}

Run-IsAwake_example : IsAwake busy
Run-IsAwake_example = Run-IsAwake configured busy events served configured-IsAwake

Run-IsWithin_example : IsWithin 4 busy
Run-IsWithin_example =
    Run-IsWithin 4 configured busy events (omega arith) (omega arith) served (refl, omega arith)

-- The pool is stopped with a task in the queue, and a thread finds it so.
abbrev halted_pool : Pool
halted_pool = record loaded { pool_state = stopped; phase = stopping }

abbrev left_pool : Pool
left_pool = record halted_pool { threads = exited ∷ at_lock ∷ [] }

leaving : Run halted_pool (quiet ∷ []) left_pool
unfolding look
leaving =
    go_on halted_pool left_pool left_pool quiet [] (take_lock [] (at_lock ∷ []) halted_pool refl)
      (stay left_pool)

stopped_pool-idle_example : picks (quiet ∷ []) ≡ []
stopped_pool-idle_example = stopped_pool-idle halted_pool left_pool (quiet ∷ []) leaving refl refl
