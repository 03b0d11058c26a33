-- ===== src/ThreadPool/Counts.antt =====
-- How many threads of a pool of frameworks/threadpool/ThreadPool.cpp wait, and how many are about
-- to look at the queue.
use zeus_os.Base.{
  ℕ, zero, suc, ◌+◌, ◌-◌, ◌≤◌, ◌≡◌, refl, Bool, true, false, List, [], ◌∷◌, ◌++◌, arith,
}
use zeus_os.ThreadPool.{
  Worker, at_lock, asleep, running, foreign, exited, create_threads, signal, broadcast, sleepers,
}

-- How many threads will look at the queue next: they were woken, or have just run a task.
abbrev pub lookers : List Worker → ℕ
lookers [] = 0
lookers (at_lock ∷ ws) = suc (lookers ws)
lookers (running t ∷ ws) = lookers ws
lookers (asleep ∷ ws) = lookers ws
lookers (foreign ∷ ws) = lookers ws
lookers (exited ∷ ws) = lookers ws

pub sleepers-append : (xs ys : List Worker) → sleepers (xs ++ ys) ≡ sleepers xs + sleepers ys
sleepers-append [] ys = omega arith
sleepers-append (asleep ∷ xs) ys = omega (arith, sleepers-append xs ys)
sleepers-append (at_lock ∷ xs) ys = sleepers-append xs ys
sleepers-append (running t ∷ xs) ys = sleepers-append xs ys
sleepers-append (foreign ∷ xs) ys = sleepers-append xs ys
sleepers-append (exited ∷ xs) ys = sleepers-append xs ys

pub lookers-append : (xs ys : List Worker) → lookers (xs ++ ys) ≡ lookers xs + lookers ys
lookers-append [] ys = omega arith
lookers-append (asleep ∷ xs) ys = lookers-append xs ys
lookers-append (at_lock ∷ xs) ys = omega (arith, lookers-append xs ys)
lookers-append (running t ∷ xs) ys = lookers-append xs ys
lookers-append (foreign ∷ xs) ys = lookers-append xs ys
lookers-append (exited ∷ xs) ys = lookers-append xs ys

-- A signal wakes one of those that wait.
pub sleepers-signal : (k : ℕ) (ws : List Worker) → sleepers (signal k ws) ≡ sleepers ws - 1
unfolding signal
sleepers-signal k [] = refl
sleepers-signal k (asleep ∷ ws) = ground (arith, sleepers-signal (k - 1) ws)
sleepers-signal k (at_lock ∷ ws) = sleepers-signal k ws
sleepers-signal k (running t ∷ ws) = sleepers-signal k ws
sleepers-signal k (foreign ∷ ws) = sleepers-signal k ws
sleepers-signal k (exited ∷ ws) = sleepers-signal k ws

pub lookers-signal :
    (k : ℕ) (ws : List Worker)
    → lookers (signal k ws) + sleepers (signal k ws) ≡ lookers ws + sleepers ws
unfolding signal
lookers-signal k [] = refl
lookers-signal k (asleep ∷ ws) = ground (arith, lookers-signal (k - 1) ws)
lookers-signal k (at_lock ∷ ws) = omega (arith, lookers-signal k ws)
lookers-signal k (running t ∷ ws) = lookers-signal k ws
lookers-signal k (foreign ∷ ws) = lookers-signal k ws
lookers-signal k (exited ∷ ws) = lookers-signal k ws

pub sleepers-broadcast : (ws : List Worker) → sleepers (broadcast ws) ≡ 0
unfolding broadcast
sleepers-broadcast [] = refl
sleepers-broadcast (asleep ∷ ws) = sleepers-broadcast ws
sleepers-broadcast (at_lock ∷ ws) = sleepers-broadcast ws
sleepers-broadcast (running t ∷ ws) = sleepers-broadcast ws
sleepers-broadcast (foreign ∷ ws) = sleepers-broadcast ws
sleepers-broadcast (exited ∷ ws) = sleepers-broadcast ws

-- New threads do not wait, and the old ones are as they were.
pub create_threads-sleepers :
    (n i : ℕ) (created : ℕ → ℕ) (scb : Bool) (ws : List Worker)
    → (sleepers (create_threads n i created scb ws).1 ≡ sleepers ws)
      × (lookers ws ≤ lookers (create_threads n i created scb ws).1)
unfolding create_threads
create_threads-sleepers zero i created scb ws = (refl, omega arith)
create_threads-sleepers (suc n) i created true ws = ground (
  arith,
  create_threads-sleepers n (suc i) created true (ws ++ foreign ∷ []),
  sleepers-append ws (foreign ∷ []),
  lookers-append ws (foreign ∷ []),
)
create_threads-sleepers (suc n) i created false ws = ground (
  arith,
  create_threads-sleepers n (suc i) created false (ws ++ at_lock ∷ []),
  sleepers-append ws (at_lock ∷ []),
  lookers-append ws (at_lock ∷ []),
)
