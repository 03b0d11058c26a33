-- ===== src/ThreadPool/Limits.antt =====
-- The limit of the queue and the end of the tasks in frameworks/threadpool/ThreadPool.cpp.
use zeus_os.Base.{
  ℕ, zero, suc, ◌+◌, ◌^◌, ◌<◌, ◌≤◌, ◌≡◌, refl, ◌∙◌, subst, ap, inl, inr, Bool-cases, List, [], ◌∷◌,
  ◌++◌, length, arith, ◌==◌, length-append,
}
use zeus_os.ThreadPool.{
  Worker, asleep, running, Pool, look, stopped, add_task, start, stop, begin_joins, end_join,
  return_joins,
}
use zeus_os.ThreadPool.Steps.{
  Event, entry, quiet, opened, entered, picked, Step, add, take_lock, wake, finish, return,
  start_pool, stop_pool, wake_all, join, joined, Run, stay, go_on,
}
use zeus_os.ThreadPool.Queue.{start-tasks, picks}

-- A pool with a positive limit and at most one task more than that.
abbrev pub IsWithin : ℕ → Pool → Type 0
IsWithin limit p = (p.task_size_limit ≡ limit) × (length p.tasks ≤ suc limit)

-- The guard lets a task in that finds the queue exactly full.
add_task-IsWithin :
    (limit task k : ℕ) (p : Pool)
    → 0 < limit
    → suc limit < 2 ^ 31
    → IsWithin limit p
    → IsWithin limit (add_task task k p).1
unfolding add_task
add_task-IsWithin limit task k p l u w = ground (arith, length-append p.tasks (task ∷ []))

look-shrinks : (p : Pool) → length (look p).1 ≤ length p.tasks
unfolding look
look-shrinks p = elim (Bool-cases (p.pool_state == stopped)) [
  | inl y ↦ rw y (omega arith)
  | inr n ↦ rw n (shrinks p.tasks)
]
  where
    shrinks :
        (ts : List ℕ)
        → (let r : Worker × List ℕ = elim ts [
          | [] ↦ (asleep, [])
          | task ∷ rest ↦ (running task, rest)
        ] in
            length r.1 ≤ length ts)
    shrinks [] = omega arith
    shrinks (task ∷ rest) = omega arith

start-limit : (created : ℕ → ℕ) (p : Pool) → (start created p).1.task_size_limit ≡ p.task_size_limit
unfolding start
start-limit created p = ground arith

Step-IsWithin :
    (limit : ℕ) (p q : Pool) (e : Event)
    → 0 < limit
    → suc limit < 2 ^ 31
    → Step p e q
    → IsWithin limit p
    → IsWithin limit q
unfolding stop begin_joins end_join return_joins
Step-IsWithin limit _ _ _ l u (add task k p) w = add_task-IsWithin limit task k p l u w
Step-IsWithin limit _ _ _ l u (take_lock xs ys p at) w = (w.0, omega (arith, w.1, look-shrinks p))
Step-IsWithin limit _ _ _ l u (wake xs ys p at) w = w
Step-IsWithin limit _ _ _ l u (finish task xs ys p at) w = w
Step-IsWithin limit _ _ _ l u (return xs ys p at) w = w
Step-IsWithin limit _ _ _ l u (start_pool created p at) w =
    (start-limit created p ∙ w.0, subst (λ ts. length ts ≤ suc limit) (start-tasks created p) w.1)
Step-IsWithin limit _ _ _ l u (stop_pool p at) w = w
Step-IsWithin limit _ _ _ l u (wake_all p at) w = w
Step-IsWithin limit _ _ _ l u (join i p at lt ex) w = w
Step-IsWithin limit _ _ _ l u (joined i p at le) w = w

-- Over any interleaving the queue holds at most one task more than the limit that was set, when the
-- limit is positive, one below the largest int at most, and the queue is so at the beginning.
pub Run-IsWithin :
    (limit : ℕ) (p q : Pool) (es : List Event)
    → 0 < limit
    → suc limit < 2 ^ 31
    → Run p es q
    → IsWithin limit p
    → IsWithin limit q
Run-IsWithin limit _ _ _ l u (stay p) w = w
Run-IsWithin limit _ _ _ l u (go_on p m q e es s r) w =
    Run-IsWithin limit m q es l u r (Step-IsWithin limit p m e l u s w)

-- How often the owner starts the pool.
abbrev pub openings : List Event → ℕ
openings [] = 0
openings (opened ∷ es) = suc (openings es)
openings (quiet ∷ es) = openings es
openings (entered task ∷ es) = openings es
openings (picked task ∷ es) = openings es

-- In a stopped pool an event takes no task.
abbrev IsIdle : Event → Pool → Type 0
IsIdle e q = (picks (e ∷ []) ≡ []) × (q.pool_state ≡ stopped)

entry-idle : (r task : ℕ) → picks (entry r task ∷ []) ≡ []
entry-idle zero task = refl
entry-idle (suc r) task = refl

add_task-state : (task k : ℕ) (p : Pool) → (add_task task k p).1.pool_state ≡ p.pool_state
unfolding add_task
add_task-state task k p = ground arith

Step-IsIdle :
    (p q : Pool) (e : Event)
    → Step p e q
    → p.pool_state ≡ stopped
    → openings (e ∷ []) ≡ 0
    → IsIdle e q
unfolding stop begin_joins end_join return_joins look
Step-IsIdle _ _ _ (add task k p) s o =
    (entry-idle (add_task task k p).0 task, add_task-state task k p ∙ s)
Step-IsIdle _ _ _ (take_lock xs ys p at) s o = (rw s refl, s)
Step-IsIdle _ _ _ (wake xs ys p at) s o = (refl, s)
Step-IsIdle _ _ _ (finish task xs ys p at) s o = (refl, s)
Step-IsIdle _ _ _ (return xs ys p at) s o = (refl, s)
Step-IsIdle _ _ _ (start_pool created p at) s o = absurd (omega arith)
Step-IsIdle _ _ _ (stop_pool p at) s o = (refl, refl)
Step-IsIdle _ _ _ (wake_all p at) s o = (refl, s)
Step-IsIdle _ _ _ (join i p at lt ex) s o = (refl, s)
Step-IsIdle _ _ _ (joined i p at le) s o = (refl, s)

picks-cons : (e : Event) (es : List Event) → picks (e ∷ es) ≡ picks (e ∷ []) ++ picks es
picks-cons quiet es = refl
picks-cons opened es = refl
picks-cons (entered task) es = refl
picks-cons (picked task) es = refl

openings-cons : (e : Event) (es : List Event) → openings (e ∷ es) ≡ openings (e ∷ []) + openings es
openings-cons quiet es = omega arith
openings-cons opened es = omega arith
openings-cons (entered task) es = omega arith
openings-cons (picked task) es = omega arith

-- Once the pool is stopped no thread takes a task from the queue, whatever the interleaving, until
-- the owner starts the pool again.
pub stopped_pool-idle :
    (p q : Pool) (es : List Event)
    → Run p es q
    → p.pool_state ≡ stopped
    → openings es ≡ 0
    → picks es ≡ []
stopped_pool-idle _ _ _ (stay p) s o = refl
stopped_pool-idle _ _ _ (go_on p m q e es st r) s o =
    let now = Step-IsIdle p m e st s (omega (arith, openings-cons e es)) in
    picks-cons e es
    ∙ ap (λ xs. xs ++ picks es) now.0
    ∙ stopped_pool-idle m q es r now.1 (omega (arith, openings-cons e es))
