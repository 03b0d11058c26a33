-- ===== src/ThreadPool.antt =====
-- The pool of frameworks/threadpool/ThreadPool.cpp and include/ThreadPool.h: what each of its
-- threads and the thread that owns it do between taking the mutex and letting it go.
pub mod Steps
pub mod Queue
pub mod Counts
pub mod Wakeups
pub mod Limits
pub mod Examples
use zeus_os.Base.{
  ℕ, zero, suc, ◌+◌, ◌-◌, ◌*◌, ◌^◌, ◌<◌, ◌≡◌, Bool, true, false, ◌&&◌, Option, none, some, List, [],
  ◌∷◌, ◌++◌, map, ltb, ◌==◌, if◌then◌else◌, length, get_elem?,
}
use zeus_os.Memory.{int_lt}

abbrev pub started : ℕ
started = 0

abbrev pub stopped : ℕ
stopped = 1

-- A thread is about to take the mutex, waits on the condition variable, runs a task, runs the start
-- callback of its creator, or has exited.
pub data Worker : Type 0 where
  at_lock asleep : Worker
  running : ℕ → Worker
  foreign exited : Worker

-- Where the thread is that owns the pool: outside, in destroy_threadpool in front of the broadcast,
-- or in its loop, at the thread with that number.
pub data Phase : Type 0 where
  outside stopping : Phase
  joining : ℕ → Phase

-- An `int` is its bit pattern; a task is a number.
pub record Pool : Type 0 where
  pub scb : Bool
  pub pool_size : ℕ
  pub task_size_limit : ℕ
  pub pool_state : ℕ
  pub threads : List Worker
  pub tasks : List ℕ
  pub phase : Phase

-- ThreadPool::ThreadPool
abbrev pub new_pool : Pool
new_pool = record {
  scb = false;
  pool_size = 0;
  task_size_limit = 0xffffffff;
  pool_state = 0xffffffff;
  threads = [];
  tasks = [];
  phase = outside;
}

-- ss_start_thread
abbrev pub start_thread : Bool → Worker
start_thread scb = if scb then foreign else at_lock

-- The loop of start: `n` threads are left to create, `created` is what pthread_create returns.
unfoldable pub create_threads : ℕ → ℕ → (ℕ → ℕ) → Bool → List Worker → ℕ × List Worker
create_threads zero i created scb ws = (0, ws)
create_threads (suc n) i created scb ws =
    let rest = create_threads n (suc i) created scb (ws ++ start_thread scb ∷ []) in
    if created i == 0 then rest else (0xffffffff, ws)

-- `for (i = 0; i < m_pool_size; i++)` on an int.
abbrev pub thread_count : ℕ → ℕ
thread_count size = if int_lt 0 size then size else 0

unfoldable pub start : (ℕ → ℕ) → Pool → ℕ × Pool
start created p =
    if p.pool_size == 0
    then (0xffffffff, p)
    else if p.pool_state == started
    then (0, p)
    else (let (ret, ws) = create_threads (thread_count p.pool_size) 0 created p.scb p.threads in
        (ret, record p { pool_state = started; threads = ws }))

-- How many threads wait.
abbrev pub sleepers : List Worker → ℕ
sleepers [] = 0
sleepers (asleep ∷ ws) = suc (sleepers ws)
sleepers (at_lock ∷ ws) = sleepers ws
sleepers (running t ∷ ws) = sleepers ws
sleepers (foreign ∷ ws) = sleepers ws
sleepers (exited ∷ ws) = sleepers ws

-- pthread_cond_signal wakes one of the threads that wait, if there are any; the scheduler chooses.
unfoldable pub signal : ℕ → List Worker → List Worker
signal k [] = []
signal k (asleep ∷ ws) =
    if k == 0
    then at_lock ∷ ws
    else if sleepers ws == 0
    then at_lock ∷ ws
    else asleep ∷ signal (k - 1) ws
signal k (at_lock ∷ ws) = at_lock ∷ signal k ws
signal k (running t ∷ ws) = running t ∷ signal k ws
signal k (foreign ∷ ws) = foreign ∷ signal k ws
signal k (exited ∷ ws) = exited ∷ signal k ws

abbrev woken : Worker → Worker
woken asleep = at_lock
woken at_lock = at_lock
woken (running t) = running t
woken foreign = foreign
woken exited = exited

-- pthread_cond_broadcast
unfoldable pub broadcast : List Worker → List Worker
broadcast ws = map woken ws

-- add_task, with the choice of the signal.
unfoldable pub add_task : ℕ → ℕ → Pool → ℕ × Pool
add_task task k p =
    if int_lt 0 p.task_size_limit && int_lt p.task_size_limit (length p.tasks)
    then (0xffffffff, p)
    else (0, record p { tasks = p.tasks ++ task ∷ []; threads = signal k p.threads })

-- execute_thread from the lock to the wait, the exit or the call of the task: the thread and the
-- queue after it.
unfoldable pub look : Pool → Worker × List ℕ
look p =
    if p.pool_state == stopped
    then (exited, p.tasks)
    else elim p.tasks [ [] ↦ (asleep, []) | task ∷ rest ↦ (running task, rest) ]

-- destroy_threadpool up to its broadcast, and the broadcast.
unfoldable pub stop : Pool → Pool
stop p = record p { pool_state = stopped; phase = stopping }

unfoldable pub begin_joins : Pool → Pool
begin_joins p = record p { threads = broadcast p.threads; phase = joining 0 }

-- The loop of destroy_threadpool at the thread `i`.
unfoldable pub end_join : ℕ → Pool → Pool
end_join i p = record p { threads = broadcast p.threads; phase = joining (suc i) }

unfoldable pub return_joins : Pool → Pool
return_joins p = record p { phase = outside }
