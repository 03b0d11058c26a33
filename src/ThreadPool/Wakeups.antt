-- ===== src/ThreadPool/Wakeups.antt =====
-- The condition variable of frameworks/threadpool/ThreadPool.cpp: who waits, and when.
use zeus_os.Base.{
  ℕ, ◌+◌, ◌<◌, ◌≤◌, ◌≡◌, ◌≢◌, refl, ap, ◌∙◌, inl, inr, ◌⊎◌, Bool, true, false, Bool-cases, List, [],
  ◌∷◌, ◌++◌, length, length-append, arith, ==_iff, ◌==◌, ◌&&◌,
}
use zeus_os.Memory.{int_lt}
use zeus_os.ThreadPool.{
  Worker, at_lock, asleep, running, foreign, exited, Phase, outside, stopping, joining, Pool, look,
  stopped, started, add_task, start, stop, begin_joins, end_join, return_joins, thread_count,
  sleepers,
}
use zeus_os.ThreadPool.Steps.{
  Event, Step, add, take_lock, wake, finish, return, start_pool, stop_pool, wake_all, join, joined,
  Run, stay, go_on,
}
use zeus_os.ThreadPool.Counts.{
  lookers, sleepers-append, lookers-append, sleepers-signal, lookers-signal, sleepers-broadcast,
  create_threads-sleepers,
}

-- While the pool is not stopped and a thread waits, each task in the queue has a thread of its own
-- that is about to look at the queue; in a stopped pool no thread waits, from the broadcast on; and the owner is in
-- destroy_threadpool only when the pool is stopped.
pub record IsAwake (p : Pool) : Type 0 where
  pub live : p.pool_state ≢ stopped → 0 < sleepers p.threads → length p.tasks ≤ lookers p.threads
  pub drained : p.pool_state ≡ stopped → (p.phase ≡ stopping) ⊎ (sleepers p.threads ≡ 0)
  pub halted : (p.phase ≡ outside) ⊎ (p.pool_state ≡ stopped)

-- One thread changes from `w` to `v`.
abbrev Replaces : Worker → Worker → List Worker → List Worker → Type 0
Replaces w v ws vs =
    (xs : List Worker) × (ys : List Worker) × (ws ≡ xs ++ w ∷ ys) × (vs ≡ xs ++ v ∷ ys)

counts :
    (w : Worker) (xs ys ws : List Worker)
    → ws ≡ xs ++ w ∷ ys
    → (sleepers ws ≡ sleepers xs + sleepers (w ∷ ys)) × (lookers ws ≡ lookers xs + lookers (w ∷ ys))
counts w xs ys ws e =
    (ap sleepers e ∙ sleepers-append xs (w ∷ ys), ap lookers e ∙ lookers-append xs (w ∷ ys))

-- A step that keeps the state, the phase and the tasks, and puts no thread to sleep.
IsAwake-stirred :
    (p : Pool) (vs : List Worker)
    → IsAwake p
    → sleepers vs ≤ sleepers p.threads
    → lookers p.threads ≤ lookers vs
    → IsAwake (record p { threads = vs })
IsAwake-stirred p vs a s g = record {
  live = λ n l. omega (arith, a.live n (omega arith));
  drained = λ e. elim (a.drained e) [ inl h ↦ inl h | inr z ↦ inr (omega arith) ];
  halted = a.halted;
}

add_task-IsAwake : (task k : ℕ) (p : Pool) → IsAwake p → IsAwake (add_task task k p).1
unfolding add_task
add_task-IsAwake task k p a =
    elim (Bool-cases (int_lt 0 p.task_size_limit && int_lt p.task_size_limit (length p.tasks))) [
      | inl y ↦ rw y a
      | inr n ↦ rw n (record {
        live = λ n l.
            (let s = sleepers-signal k p.threads in
              omega (
                arith,
                length-append p.tasks (task ∷ []),
                s,
                lookers-signal k p.threads,
                a.live n (omega (arith, s, l)),
              ));
        drained = λ e. elim (a.drained e) [
          | inl h ↦ inl h
          | inr z ↦ inr (omega (arith, sleepers-signal k p.threads))
        ];
        halted = a.halted;
      })
    ]

test_not : {b : Bool} → b ≡ false → b ≡ true → ⊥
test_not f t = cc

not_joining : (f : Phase) (i : ℕ) → f ≡ outside → f ≡ joining i → ⊥
not_joining f i x y = cc

-- A thread at the lock waits when there is nothing to take, and not in a stopped pool.
abbrev Looks : Pool → Worker → List ℕ → Type 0
Looks p v ts =
    ((p.pool_state ≢ stopped) × (v ≡ asleep) × (length ts ≡ 0))
    ⊎ ((sleepers (v ∷ []) ≡ 0) × (p.pool_state ≢ stopped → length ts + 1 ≡ length p.tasks))

look-Looks : (p : Pool) → Looks p (look p).0 (look p).1
unfolding look
look-Looks p = elim (Bool-cases (p.pool_state == stopped)) [
  | inl y ↦ rw y (inr (refl, λ n. absurd (n ((==_iff p.pool_state stopped).0 y))))
  | inr n ↦
      rw n (looks_at p.tasks refl (λ e. absurd (test_not n ((==_iff p.pool_state stopped).1 e))))
]
  where
    looks_at :
        (ts : List ℕ)
        → p.tasks ≡ ts
        → p.pool_state ≢ stopped
        → (let r : Worker × List ℕ = elim ts [
          | [] ↦ (asleep, [])
          | task ∷ rest ↦ (running task, rest)
        ] in
            Looks p r.0 r.1)
    looks_at [] e n = inl (n, refl, refl)
    looks_at (task ∷ rest) e n = inr (refl, λ _. omega (arith, ap length e))

take_lock-IsAwake :
    (v : Worker) (ts : List ℕ) (xs ys : List Worker) (p : Pool)
    → IsAwake p
    → p.threads ≡ xs ++ at_lock ∷ ys
    → Looks p v ts
    → IsAwake (record p { threads = xs ++ v ∷ ys; tasks = ts })
take_lock-IsAwake v ts xs ys p a e (inl (n, w, z)) = record {
  live = λ m l. omega arith;
  drained = λ s. absurd (n s);
  halted = a.halted;
}
take_lock-IsAwake v ts xs ys p a e (inr (z, o)) =
    let old = counts at_lock xs ys p.threads e in
    let new = counts v xs ys (xs ++ v ∷ ys) refl in
    let one = sleepers-append (v ∷ []) ys in
    let one' = lookers-append (v ∷ []) ys in
    record {
      live = λ n l. omega (
        arith,
        old.0,
        old.1,
        new.0,
        new.1,
        one,
        one',
        lookers-append (at_lock ∷ []) ys,
        o n,
        a.live n (omega (arith, old.0, new.0, one, l)),
      );
      drained = λ s. elim (a.drained s) [
        | inl h ↦ inl h
        | inr k ↦ inr (omega (arith, old.0, new.0, one))
      ];
      halted = a.halted;
    }

replace-IsAwake :
    (w v : Worker) (xs ys : List Worker) (p : Pool)
    → IsAwake p
    → p.threads ≡ xs ++ w ∷ ys
    → sleepers (v ∷ []) ≤ sleepers (w ∷ [])
    → lookers (w ∷ []) ≤ lookers (v ∷ [])
    → IsAwake (record p { threads = xs ++ v ∷ ys })
replace-IsAwake w v xs ys p a e s g =
    let old = counts w xs ys p.threads e in
    let new = counts v xs ys (xs ++ v ∷ ys) refl in
    IsAwake-stirred p (xs ++ v ∷ ys) a
      (omega (arith, old.0, new.0, sleepers-append (v ∷ []) ys, sleepers-append (w ∷ []) ys))
      (omega (arith, old.1, new.1, lookers-append (v ∷ []) ys, lookers-append (w ∷ []) ys))

not_stopping : (f : Phase) → f ≡ outside → f ≡ stopping → ⊥
not_stopping f x y = cc

joins_not_stopping : (f : Phase) (i : ℕ) → f ≡ joining i → f ≡ stopping → ⊥
joins_not_stopping f i x y = cc

-- The owner is outside when it starts the pool, so no thread waits in a pool that was stopped.
no_sleepers :
    (p : Pool) → IsAwake p → p.phase ≡ outside → p.pool_state ≡ stopped → sleepers p.threads ≡ 0
no_sleepers p a o s = elim (a.drained s) [ inl h ↦ absurd (not_stopping p.phase o h) | inr z ↦ z ]

start-IsAwake :
    (created : ℕ → ℕ) (p : Pool) → IsAwake p → p.phase ≡ outside → IsAwake (start created p).1
unfolding start
start-IsAwake created p a o = elim (Bool-cases (p.pool_size == 0)) [
  | inl y ↦ rw y a
  | inr n ↦ elim (Bool-cases (p.pool_state == started)) [
    | inl y ↦ rw (n, y) a
    | inr m ↦
        rw (n, m)
          (record {
            live = λ k l. elim (Bool-cases (p.pool_state == stopped)) [
              | inl y ↦ absurd (
                  omega (
                    arith,
                    create_threads-sleepers (thread_count p.pool_size) 0 created p.scb p.threads,
                    no_sleepers p a o ((==_iff p.pool_state stopped).0 y),
                  ))
              | inr z ↦ omega (
                arith,
                create_threads-sleepers (thread_count p.pool_size) 0 created p.scb p.threads,
                a.live (λ e. absurd (test_not z ((==_iff p.pool_state stopped).1 e)))
                    (omega (
                      arith,
                      create_threads-sleepers (thread_count p.pool_size) 0 created p.scb p.threads,
                      l,
                    )),
              )
            ];
            drained = λ e. absurd (omega arith);
            halted = inl o;
          })
  ]
]

end_join-IsAwake : (i : ℕ) (p : Pool) → IsAwake p → p.phase ≡ joining i → IsAwake (end_join i p)
unfolding end_join
end_join-IsAwake i p a o = record {
  live = λ n l. absurd (omega (arith, sleepers-broadcast p.threads));
  drained = λ e. inr (sleepers-broadcast p.threads);
  halted = elim a.halted [ inl h ↦ absurd (not_joining p.phase i h o) | inr e ↦ inr e ];
}

pub Step-IsAwake : (p q : Pool) (e : Event) → Step p e q → IsAwake p → IsAwake q
unfolding stop begin_joins return_joins
Step-IsAwake _ _ _ (add task k p) a = add_task-IsAwake task k p a
Step-IsAwake _ _ _ (take_lock xs ys p at) a =
    take_lock-IsAwake (look p).0 (look p).1 xs ys p a at (look-Looks p)
Step-IsAwake _ _ _ (wake xs ys p at) a =
    replace-IsAwake asleep at_lock xs ys p a at (omega arith) (omega arith)
Step-IsAwake _ _ _ (finish task xs ys p at) a =
    replace-IsAwake (running task) at_lock xs ys p a at (omega arith) (omega arith)
Step-IsAwake _ _ _ (return xs ys p at) a =
    replace-IsAwake foreign exited xs ys p a at (omega arith) (omega arith)
Step-IsAwake _ _ _ (start_pool created p at) a = start-IsAwake created p a at
Step-IsAwake _ _ _ (stop_pool p at) a = record {
  live = λ n l. absurd (n refl);
  drained = λ e. inl refl;
  halted = inr refl;
}
Step-IsAwake _ _ _ (wake_all p at) a = record {
  live = λ n l. absurd (omega (arith, sleepers-broadcast p.threads));
  drained = λ e. inr (sleepers-broadcast p.threads);
  halted = elim a.halted [ inl h ↦ absurd (not_stopping p.phase h at) | inr e ↦ inr e ];
}
Step-IsAwake _ _ _ (join i p at lt ex) a = end_join-IsAwake i p a at
Step-IsAwake _ _ _ (joined i p at le) a = record {
  live = a.live;
  drained = λ e. elim (a.drained e) [
    | inl h ↦ absurd (joins_not_stopping p.phase i at h)
    | inr z ↦ inr z
  ];
  halted = inl refl;
}

-- No wakeup is lost, over any interleaving of the threads, of add_task, of start and of
-- destroy_threadpool. As long as the pool is not stopped and a thread waits, there are at least as many
-- threads on their way to the queue as there are tasks in it, so that no task is left to a thread
-- that nobody wakes; and from the broadcast of destroy_threadpool on no thread of a stopped pool
-- waits. The pool at the beginning has this state, as a new one has.
pub Run-IsAwake : (p q : Pool) (es : List Event) → Run p es q → IsAwake p → IsAwake q
Run-IsAwake _ _ _ (stay p) a = a
Run-IsAwake _ _ _ (go_on p m q e es s r) a = Run-IsAwake m q es r (Step-IsAwake p m e s a)
