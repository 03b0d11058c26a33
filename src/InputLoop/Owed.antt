-- ===== src/InputLoop/Owed.antt =====
-- What the threads of packages/inputmanager/main_inputmanager.cpp have written to the listeners, and
-- what they still owe them.
use zeus_os.Base.{
  ℕ, zero, suc, ◌+◌, ◌<◌, ◌≡◌, refl, sym, ap, ◌∙◌, false, Option, none, some, List, [], ◌∷◌, ◌++◌,
  arith, length, get_elem?, length-append, All,
}
use mathlib.Core.List.{append-nil, append_assoc}
use zeus_os.Memory.{int_lt}
use zeus_os.EventDevice.{CookEvent}
use zeus_os.InputManager.{ListenerDesc, dispatched}
use zeus_os.ThreadPool.{add_task}
use zeus_os.InputLoop.{Station, hand_over}

-- What dispatching events one after the other writes.
abbrev pub writes_for : List ListenerDesc → List CookEvent → List (ℕ × CookEvent)
writes_for ls [] = []
writes_for ls (e ∷ es) = dispatched e ls ++ writes_for ls es

-- The events of tasks.
abbrev pub with_event : Option CookEvent → List CookEvent → List CookEvent
with_event none es = es
with_event (some e) es = e ∷ es

unfoldable pub events_of : List CookEvent → List ℕ → List CookEvent
events_of heap [] = []
events_of heap (t ∷ ts) = with_event (get_elem? heap t) (events_of heap ts)

-- What has been written, and what the queue will still write.
abbrev pub owed : Station → List (ℕ × CookEvent)
owed s =
    s.manager.service.writes
    ++ writes_for s.manager.service.listeners (events_of s.heap s.pool.tasks)

-- Every task is an event, and the queue has no limit.
pub record IsInOrder (s : Station) : Type 0 where
  pub made : All (λ t. t < length s.heap) s.pool.tasks
  pub unlimited : int_lt 0 s.pool.task_size_limit ≡ false

pub writes_for-append :
    (ls : List ListenerDesc) (es fs : List CookEvent)
    → writes_for ls (es ++ fs) ≡ writes_for ls es ++ writes_for ls fs
writes_for-append ls [] fs = refl
writes_for-append ls (e ∷ es) fs =
    ap (λ ws. dispatched e ls ++ ws) (writes_for-append ls es fs)
    ∙ sym (append_assoc (dispatched e ls) (writes_for ls es) (writes_for ls fs))

get_elem?-old :
    (heap : List CookEvent) (e : CookEvent) (t : ℕ)
    → t < length heap
    → get_elem? (heap ++ e ∷ []) t ≡ get_elem? heap t
get_elem?-old [] e t l = absurd (omega arith)
get_elem?-old (x ∷ heap) e zero l = refl
get_elem?-old (x ∷ heap) e (suc t) l = get_elem?-old heap e t (omega arith)

get_elem?-new :
    (heap : List CookEvent) (e : CookEvent) → get_elem? (heap ++ e ∷ []) (length heap) ≡ some e
get_elem?-new [] e = refl
get_elem?-new (x ∷ heap) e = get_elem?-new heap e

with_event-append :
    (o : Option CookEvent) (es fs : List CookEvent)
    → with_event o (es ++ fs) ≡ with_event o es ++ fs
with_event-append none es fs = refl
with_event-append (some e) es fs = refl

-- A new event goes behind those that are queued.
events_of-new :
    (heap : List CookEvent) (e : CookEvent) (ts : List ℕ)
    → All (λ t. t < length heap) ts
    → events_of (heap ++ e ∷ []) (ts ++ length heap ∷ []) ≡ events_of heap ts ++ e ∷ []
unfolding events_of
events_of-new heap e [] a = ap (λ o. with_event o []) (get_elem?-new heap e)
events_of-new heap e (t ∷ ts) a =
    ap (λ o. with_event o (events_of (heap ++ e ∷ []) (ts ++ length heap ∷ [])))
      (get_elem?-old heap e t a.0)
    ∙ ap (with_event (get_elem? heap t)) (events_of-new heap e ts a.1)
    ∙ with_event-append (get_elem? heap t) (events_of heap ts) (e ∷ [])

All-older : (ts : List ℕ) (n : ℕ) → All (λ t. t < n) ts → All (λ t. t < n + 1) (ts ++ n ∷ [])
All-older [] n a = (omega arith, tt)
All-older (t ∷ ts) n a = (omega (arith, a.0), All-older ts n a.1)

-- One step for one event.
pub hand_over-owed :
    (k : ℕ) (e : CookEvent) (s : Station)
    → IsInOrder s
    → IsInOrder (hand_over k e s)
      × (owed (hand_over k e s) ≡ owed s ++ dispatched e s.manager.service.listeners)
      × ((hand_over k e s).manager ≡ s.manager)
unfolding hand_over add_task
hand_over-owed k e s i = rw i.unlimited (
  record {
    made = rw (length-append s.heap (e ∷ [])) (All-older s.pool.tasks (length s.heap) i.made);
    unlimited = i.unlimited;
  },
  ap (λ es. s.manager.service.writes ++ writes_for s.manager.service.listeners es)
        (events_of-new s.heap e s.pool.tasks i.made)
      ∙ ap (λ ws. s.manager.service.writes ++ ws)
          (writes_for-append s.manager.service.listeners (events_of s.heap s.pool.tasks) (e ∷ [])
            ∙ ap
                (λ ws. writes_for s.manager.service.listeners (events_of s.heap s.pool.tasks) ++ ws)
                (append-nil (dispatched e s.manager.service.listeners)))
      ∙ sym (append_assoc s.manager.service.writes _ _),
  refl,
)
