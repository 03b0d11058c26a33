-- ===== src/InputLoop/Turns.antt =====
-- The events on their way through the threads of packages/inputmanager/main_inputmanager.cpp.
use zeus_os.Base.{
  ℕ, zero, suc, ◌<◌, ◌≡◌, refl, sym, ap, ◌∙◌, ◌⊎◌, inl, inr, true, Bool-cases, Option-cases, List,
  [], ◌∷◌, ◌++◌, length, get_elem?, All, take, subst, ◌==◌,
}
use mathlib.Core.List.{append-nil, append_assoc}
use zeus_os.Memory.{int_lt}
use zeus_os.Binder.{done, UnlessFault, UnlessFault-weaken}
use zeus_os.EventDevice.{CookEvent}
use zeus_os.InputManager.{dispatch_event, dispatched}
use zeus_os.ThreadPool.{Pool, look, Worker, running, exited, asleep, stopped}
use zeus_os.InputLoop.{
  Station, hand_over, hand_over_all, reader_round, run_task, after_look, dispatch_round,
}
use zeus_os.InputLoop.Owed.{
  writes_for, with_event, events_of, owed, IsInOrder, writes_for-append, hand_over-owed,
}

-- The threads take turns in any order; the list holds the events that the reader has read.
pub data Turns : Station → List CookEvent → Station → Type 0 where
  finished : (s : Station) → Turns s [] s
  reads :
      (choose : ℕ → ℕ) (ret : ℕ) (events es : List CookEvent) (s s1 s2 : Station)
      → int_lt 0 ret ≡ true
      → reader_round choose ret events s ≡ done s1
      → Turns s1 es s2
      → Turns s (take ret events ++ es) s2
  dispatches :
      (es : List CookEvent) (s s1 s2 : Station)
      → dispatch_round s ≡ done s1
      → Turns s1 es s2
      → Turns s es s2

-- The queue in order, what is owed, and the listeners after a part of the code.
abbrev After : Station → List CookEvent → Station → Type 0
After s es s1 =
    IsInOrder s1
    × (owed s1 ≡ owed s ++ writes_for s.manager.service.listeners es)
    × (s1.manager.service.listeners ≡ s.manager.service.listeners)

hand_over_all-After :
    (choose : ℕ → ℕ) (n : ℕ) (events : List CookEvent) (s : Station)
    → IsInOrder s
    → UnlessFault (hand_over_all choose n events s) (After s (take n events))
unfolding hand_over_all
hand_over_all-After choose zero events s i = (i, sym (append-nil (owed s)), refl)
hand_over_all-After choose (suc n) [] s i = tt
hand_over_all-After choose (suc n) (e ∷ events) s i =
    let (i1, o1, m1) = hand_over-owed (choose n) e s i in
    UnlessFault-weaken (hand_over_all choose n events (hand_over (choose n) e s)) _ _
      (hand_over_all-After choose n events (hand_over (choose n) e s) i1)
      (λ s1 (i2, o2, l2).
        let ls = ap (λ m. m.service.listeners) m1 in
        (
          i2,
          o2
              ∙ ap (λ l. owed (hand_over (choose n) e s) ++ writes_for l (take n events)) ls
              ∙ ap (λ ws. ws ++ writes_for s.manager.service.listeners (take n events)) o1
              ∙ append_assoc (owed s) (dispatched e s.manager.service.listeners) _,
          l2 ∙ ls,
        ))

reader_round-After :
    (choose : ℕ → ℕ) (ret : ℕ) (events : List CookEvent) (s : Station)
    → int_lt 0 ret ≡ true
    → IsInOrder s
    → UnlessFault (reader_round choose ret events s) (After s (take ret events))
unfolding reader_round
reader_round-After choose ret events s pos i =
    rw (reader_round, pos) (hand_over_all-After choose ret events s i)

run_task-After :
    (task : ℕ) (queue : List ℕ) (s : Station)
    → s.pool.tasks ≡ task ∷ queue
    → IsInOrder s
    → UnlessFault
        (run_task task (record s { pool = record (s.pool) { tasks = queue } }))
        (After s [])
unfolding run_task dispatch_event events_of
run_task-After task queue s q i = elim (Option-cases (get_elem? s.heap task)) [
  | inl missing ↦ rw (run_task, missing) tt
  | inr (e, found) ↦
      rw (run_task, found)
        (
          record {
            made = (subst (λ ts. All (λ t. t < length s.heap) ts) q i.made).1;
            unlimited = i.unlimited;
          },
          append_assoc s.manager.service.writes (dispatched e s.manager.service.listeners) _
              ∙ ap (λ es. s.manager.service.writes ++ writes_for s.manager.service.listeners es)
                  (sym (
                    ap (events_of s.heap) q
                    ∙ ap (λ o. with_event o (events_of s.heap queue)) found))
              ∙ sym (append-nil (owed s)),
          refl,
        )
]

-- What a thread finds in the queue.
next_of : List ℕ → Worker × List ℕ
next_of [] = (asleep, [])
next_of (task ∷ queue) = (running task, queue)

look-cases :
    (p : Pool)
    → (look p ≡ (exited, p.tasks))
      ⊎ ((look p ≡ (asleep, []))
          ⊎ ((task : ℕ) × (queue : List ℕ) × (p.tasks ≡ task ∷ queue)
              × (look p ≡ (running task, queue))))
unfolding look next_of
look-cases p = elim (Bool-cases (p.pool_state == stopped)) [
  | inl y ↦ inl (rw (look, y) refl)
  | inr n ↦ inr (go p.tasks (rw (look, n) (next_of-eq p.tasks)))
]
  where
    next_of-eq :
        (xs : List ℕ)
        → (elim xs as (λ _. Worker × List ℕ) [
          | [] ↦ (asleep, [])
          | task ∷ queue ↦ (running task, queue)
        ])
          ≡ next_of xs
    next_of-eq [] = refl
    next_of-eq (task ∷ queue) = refl

    go :
        (xs : List ℕ)
        → look p ≡ next_of xs
        → (look p ≡ (asleep, []))
          ⊎ ((task : ℕ) × (queue : List ℕ) × (xs ≡ task ∷ queue) × (look p ≡ (running task, queue)))
    go [] e = inl e
    go (task ∷ queue) e = inr (task, queue, refl, e)

dispatch_round-After : (s : Station) → IsInOrder s → UnlessFault (dispatch_round s) (After s [])
unfolding dispatch_round after_look
dispatch_round-After s i =
    let unchanged : After s [] s = (i, sym (append-nil (owed s)), refl) in
    elim (look-cases s.pool) [
      | inl gone ↦ rw (dispatch_round, gone) unchanged
      | inr (inl idle) ↦ rw (dispatch_round, idle) unchanged
      | inr (inr (task, queue, q, taken)) ↦
          rw (dispatch_round, taken) (run_task-After task queue s q i)
    ]

-- One part of the code, and the turns behind it.
joined :
    (s s1 s2 : Station) (now later : List CookEvent)
    → After s now s1
    → (IsInOrder s1 → owed s2 ≡ owed s1 ++ writes_for s1.manager.service.listeners later)
    → owed s2 ≡ owed s ++ writes_for s.manager.service.listeners (now ++ later)
joined s s1 s2 now later (i1, o1, l1) h =
    let ls = s.manager.service.listeners in
    h i1
    ∙ ap (λ l. owed s1 ++ writes_for l later) l1
    ∙ ap (λ ws. ws ++ writes_for ls later) o1
    ∙ append_assoc (owed s) (writes_for ls now) (writes_for ls later)
    ∙ ap (λ ws. owed s ++ ws) (sym (writes_for-append ls now later))

-- Whatever turns the two threads take, no event is lost, doubled or overtaken: what the dispatching
-- thread has written to the listeners, with what it will write for the queued events, is what it had
-- written and was going to write before, and then what belongs to the events read since, in the order
-- in which they were read. The listeners are those of the start, and the queue has no limit, as in
-- the pool that BnInputManager makes.
pub Turns-owed :
    (s s2 : Station) (es : List CookEvent)
    → Turns s es s2
    → IsInOrder s
    → owed s2 ≡ owed s ++ writes_for s.manager.service.listeners es
Turns-owed _ _ _ (finished s) i = sym (append-nil (owed s))
Turns-owed _ _ _ (reads choose ret events es s s1 s2 pos e t) i =
    joined s s1 s2 (take ret events) es
      (subst (λ o. UnlessFault o (After s (take ret events))) e
        (reader_round-After choose ret events s pos i))
      (Turns-owed s1 s2 es t)
Turns-owed _ _ _ (dispatches es s s1 s2 e t) i =
    joined s s1 s2 [] es (subst (λ o. UnlessFault o (After s [])) e (dispatch_round-After s i))
      (Turns-owed s1 s2 es t)
