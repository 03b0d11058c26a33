-- ===== src/ThreadPool/Queue.antt =====
-- The queue of tasks of frameworks/threadpool/ThreadPool.cpp, over any interleaving.
use mathlib.Core.List.{append-nil, append_assoc}
use zeus_os.Base.{
  ℕ, ◌≡◌, refl, sym, ap, ◌∙◌, inl, inr, Bool-cases, List, [], ◌∷◌, ◌++◌, length, ◌==◌, ◌&&◌,
}
use zeus_os.Memory.{int_lt}
use zeus_os.ThreadPool.{
  Worker, asleep, running, Pool, look, stopped, started, add_task, start, stop, begin_joins,
  end_join, return_joins,
}
use zeus_os.ThreadPool.Steps.{
  Event, quiet, opened, entered, picked, entry, pick, Step, add, take_lock, wake, finish, return,
  start_pool, stop_pool, wake_all, join, joined, Run, stay, go_on,
}

-- The tasks that entered the queue, and those that a thread took.
abbrev pub entries : List Event → List ℕ
entries [] = []
entries (quiet ∷ es) = entries es
entries (opened ∷ es) = entries es
entries (entered task ∷ es) = task ∷ entries es
entries (picked task ∷ es) = entries es

abbrev pub picks : List Event → List ℕ
picks [] = []
picks (quiet ∷ es) = picks es
picks (opened ∷ es) = picks es
picks (entered task ∷ es) = picks es
picks (picked task ∷ es) = task ∷ picks es

-- What one step does to the queue.
abbrev IsQueued : List ℕ → Event → List ℕ → Type 0
IsQueued ts quiet us = ts ≡ us
IsQueued ts opened us = ts ≡ us
IsQueued ts (entered task) us = ts ++ task ∷ [] ≡ us
IsQueued ts (picked task) us = ts ≡ task ∷ us

pub start-tasks : (created : ℕ → ℕ) (p : Pool) → p.tasks ≡ (start created p).1.tasks
unfolding start
start-tasks created p = elim (Bool-cases (p.pool_size == 0)) [
  | inl y ↦ rw y refl
  | inr n ↦ elim (Bool-cases (p.pool_state == started)) [
    | inl y ↦ rw (n, y) refl
    | inr m ↦ rw (n, m) refl
  ]
]

add_task-IsQueued :
    (task k : ℕ) (p : Pool)
    → IsQueued p.tasks (entry (add_task task k p).0 task) (add_task task k p).1.tasks
unfolding add_task
add_task-IsQueued task k p =
    elim (Bool-cases (int_lt 0 p.task_size_limit && int_lt p.task_size_limit (length p.tasks))) [
      | inl y ↦ rw y refl
      | inr n ↦ rw n refl
    ]

look-IsQueued : (p : Pool) → IsQueued p.tasks (pick (look p).0) (look p).1
unfolding look
look-IsQueued p = elim (Bool-cases (p.pool_state == stopped)) [
  | inl y ↦ rw y refl
  | inr n ↦ rw n (picked_front p.tasks)
]
  where
    picked_front :
        (ts : List ℕ)
        → (let r : Worker × List ℕ = elim ts [
          | [] ↦ (asleep, [])
          | task ∷ rest ↦ (running task, rest)
        ] in
            IsQueued ts (pick r.0) r.1)
    picked_front [] = refl
    picked_front (task ∷ rest) = refl

Step-IsQueued : (p q : Pool) (e : Event) → Step p e q → IsQueued p.tasks e q.tasks
unfolding stop begin_joins end_join return_joins
Step-IsQueued _ _ _ (add task k p) = add_task-IsQueued task k p
Step-IsQueued _ _ _ (take_lock xs ys p at) = look-IsQueued p
Step-IsQueued _ _ _ (wake xs ys p at) = refl
Step-IsQueued _ _ _ (finish task xs ys p at) = refl
Step-IsQueued _ _ _ (return xs ys p at) = refl
Step-IsQueued _ _ _ (start_pool created p at) = start-tasks created p
Step-IsQueued _ _ _ (stop_pool p at) = refl
Step-IsQueued _ _ _ (wake_all p at) = refl
Step-IsQueued _ _ _ (join i p at lt ex) = refl
Step-IsQueued _ _ _ (joined i p at le) = refl

queued-Run :
    (ts us vs : List ℕ) (e : Event) (es : List Event)
    → IsQueued ts e us
    → us ++ entries es ≡ picks es ++ vs
    → ts ++ entries (e ∷ es) ≡ picks (e ∷ es) ++ vs
queued-Run ts us vs quiet es h k = ap (λ xs. xs ++ entries es) h ∙ k
queued-Run ts us vs opened es h k = ap (λ xs. xs ++ entries es) h ∙ k
queued-Run ts us vs (entered task) es h k =
    sym (append_assoc ts (task ∷ []) (entries es)) ∙ ap (λ xs. xs ++ entries es) h ∙ k
queued-Run ts us vs (picked task) es h k = ap (λ xs. xs ++ entries es) h ∙ ap (λ xs. task ∷ xs) k

-- Over any interleaving the tasks leave the queue in the order in which they entered it: what was
-- queued before and what entered is what was taken and what is still queued. So no task is lost,
-- and none is run by two threads or twice.
pub queue_order :
    (p q : Pool) (es : List Event) → Run p es q → p.tasks ++ entries es ≡ picks es ++ q.tasks
queue_order _ _ _ (stay p) = append-nil p.tasks
queue_order _ _ _ (go_on p m q e es s r) =
    queued-Run p.tasks m.tasks q.tasks e es (Step-IsQueued p m e s) (queue_order m q es r)
