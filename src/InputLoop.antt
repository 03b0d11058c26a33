-- ===== src/InputLoop.antt =====
-- The two threads of packages/inputmanager/main_inputmanager.cpp: one reads events and hands each to
-- the pool of frameworks/threadpool/ThreadPool.cpp, the other dispatches what it takes from there.
pub mod Owed
pub mod Turns
pub mod Examples
use zeus_os.Base.{
  ℕ, zero, suc, ◌+◌, Option, none, some, List, [], ◌∷◌, ◌++◌, length, get_elem?, if◌then◌else◌,
}
use zeus_os.Memory.{int_lt}
use zeus_os.Binder.{Outcome, done, fault, ◌>>=◌, Process}
use zeus_os.EventDevice.{CookEvent}
use zeus_os.InputManager.{Listening, dispatch_event}
use zeus_os.ThreadPool.{Pool, Worker, running, at_lock, asleep, foreign, exited, look, add_task}

-- The pool mDispatchthread, whose tasks are numbers of events, the events that `new` made, and the
-- manager with its listeners.
pub record Station : Type 0 where
  pub pool : Pool
  pub heap : List CookEvent
  pub manager : Process Listening

-- `new CookEvent`, the copy and add_task, whose result is not looked at; `k` is which thread the
-- signal wakes.
unfoldable pub hand_over : ℕ → CookEvent → Station → Station
hand_over k e s = record s { pool = (add_task (length s.heap) k s.pool).1; heap = s.heap ++ e ∷ [] }

-- The loop over the first `n` events of the array.
unfoldable pub hand_over_all : (ℕ → ℕ) → ℕ → List CookEvent → Station → Outcome Station
hand_over_all choose zero events s = done s
hand_over_all choose (suc n) [] s = fault
hand_over_all choose (suc n) (e ∷ events) s =
    hand_over_all choose n events (hand_over (choose n) e s)

-- A round of inputReaderThread after readOnce, which has returned `ret` and filled the array.
unfoldable pub reader_round : (ℕ → ℕ) → ℕ → List CookEvent → Station → Outcome Station
reader_round choose ret events s =
    if int_lt 0 ret then hand_over_all choose ret events s else done s

-- The task of the dispatching thread, dispatchEvent, on the event with that number.
unfoldable pub run_task : ℕ → Station → Outcome Station
run_task task s = elim (get_elem? s.heap task) [
  | none ↦ fault
  | some e ↦ done (record s { manager = dispatch_event e s.manager })
]

-- A round of the dispatching thread: it takes a task and runs it, or waits or ends.
unfoldable pub after_look : Worker × List ℕ → Station → Outcome Station
after_look (running task, queue) s =
    run_task task (record s { pool = record (s.pool) { tasks = queue } })
after_look (at_lock, queue) s = done s
after_look (asleep, queue) s = done s
after_look (foreign, queue) s = done s
after_look (exited, queue) s = done s

unfoldable pub dispatch_round : Station → Outcome Station
dispatch_round s = after_look (look s.pool) s
