-- ===== src/ThreadPool/Steps.antt =====
-- The interleavings of the threads of a pool of frameworks/threadpool/ThreadPool.cpp.
use zeus_os.Base.{ℕ, zero, suc, ◌<◌, ◌≤◌, ◌≡◌, List, [], ◌∷◌, ◌++◌, get_elem?, some}
use zeus_os.ThreadPool.{
  Worker, at_lock, asleep, running, foreign, exited, outside, stopping, joining, Pool, look,
  add_task, start, stop, begin_joins, end_join, return_joins, thread_count,
}

-- What a step shows: the owner starts the pool, a task enters the queue, or a thread takes one from it.
pub data Event : Type 0 where
  quiet opened : Event
  entered picked : ℕ → Event

abbrev pub entry : ℕ → ℕ → Event
entry zero task = entered task
entry (suc r) task = quiet

abbrev pub pick : Worker → Event
pick (running task) = picked task
pick at_lock = quiet
pick asleep = quiet
pick foreign = quiet
pick exited = quiet

-- A thread of the pool, or any thread that adds a task, or the owner, in the order of its code.
pub data Step : Pool → Event → Pool → Type 0 where
  add : (task k : ℕ) (p : Pool) → Step p (entry (add_task task k p).0 task) (add_task task k p).1
  take_lock :
      (xs ys : List Worker) (p : Pool)
      → p.threads ≡ xs ++ at_lock ∷ ys
      → Step p (pick (look p).0) (record p { threads = xs ++ (look p).0 ∷ ys; tasks = (look p).1 })
  wake :
      (xs ys : List Worker) (p : Pool)
      → p.threads ≡ xs ++ asleep ∷ ys
      → Step p quiet (record p { threads = xs ++ at_lock ∷ ys })
  finish :
      (task : ℕ) (xs ys : List Worker) (p : Pool)
      → p.threads ≡ xs ++ running task ∷ ys
      → Step p quiet (record p { threads = xs ++ at_lock ∷ ys })
  return :
      (xs ys : List Worker) (p : Pool)
      → p.threads ≡ xs ++ foreign ∷ ys
      → Step p quiet (record p { threads = xs ++ exited ∷ ys })
  start_pool : (created : ℕ → ℕ) (p : Pool) → p.phase ≡ outside → Step p opened (start created p).1
  stop_pool : (p : Pool) → p.phase ≡ outside → Step p quiet (stop p)
  wake_all : (p : Pool) → p.phase ≡ stopping → Step p quiet (begin_joins p)
  join :
      (i : ℕ) (p : Pool)
      → p.phase ≡ joining i
      → i < thread_count p.pool_size
      → get_elem? p.threads i ≡ some exited
      → Step p quiet (end_join i p)
  joined :
      (i : ℕ) (p : Pool)
      → p.phase ≡ joining i
      → thread_count p.pool_size ≤ i
      → Step p quiet (return_joins p)

pub data Run : Pool → List Event → Pool → Type 0 where
  stay : (p : Pool) → Run p [] p
  go_on : (p q r : Pool) (e : Event) (es : List Event) → Step p e q → Run q es r → Run p (e ∷ es) r
