-- ===== src/InputManager/Subscriptions.antt =====
-- Requests to BnInputManager of frameworks/inputmanager/InputManager.cpp, the death of a listener, and
-- who gets the events afterwards.
use zeus_os.Base.{Bool-cases, inl, inr, ℕ, ◌≡◌, refl, Option, none, some, List, [], ◌∷◌, ◌==◌}
use zeus_os.Memory.{Mem}
use zeus_os.Parcel.{BinderIo, Txn, get_uint32}
use zeus_os.Binder.{Outcome, Process, Answer, UnlessFault, UnlessFault-bind, UnlessFault-if}
use zeus_os.InputManager.{
  ListenerDesc, Listening, del_listener, use_erased, allocate, dup, on_add_listener,
  on_del_listener, on_transact,
}
use zeus_os.InputManager.Listeners.{Fresh, IsTracked, add_listener-IsTracked}

-- malloc returns no description that is in the list.
abbrev pub IsUnused : List (Option ℕ) → List ListenerDesc → Type 0
IsUnused [] ds = Unit
IsUnused (none ∷ ms) ds = Unit
IsUnused (some a ∷ ms) ds = Fresh a ds

abbrev Keeps : Outcome (Answer Listening) → Type 0
Keeps o = UnlessFault o (λ a. IsTracked a.process)

IsTracked-mem : (m : Mem) (p : Process Listening) → IsTracked p → IsTracked (record p { mem = m })
IsTracked-mem m p s = record { distinct = s.distinct; handled = s.handled; balanced = s.balanced }

allocate-IsTracked :
    (ms : List (Option ℕ)) (p : Process Listening)
    → p.service.mallocs ≡ ms
    → IsUnused ms p.service.listeners
    → IsTracked p
    → UnlessFault (allocate p) (λ x. Fresh x.0 x.1.service.listeners × IsTracked x.1)
unfolding allocate
allocate-IsTracked [] p e u s = rw e tt
allocate-IsTracked (none ∷ ms) p e u s = rw e tt
allocate-IsTracked (some a ∷ ms) p e u s =
    rw e (u, record { distinct = s.distinct; handled = s.handled; balanced = s.balanced })

-- The second allocation is of a BinderDeath.
allocate_death :
    (ms : List (Option ℕ)) (a : ℕ) (p : Process Listening)
    → p.service.mallocs ≡ ms
    → Fresh a p.service.listeners
    → IsTracked p
    → UnlessFault (allocate p) (λ x. Fresh a x.1.service.listeners × IsTracked x.1)
unfolding allocate
allocate_death [] a p e f s = rw e tt
allocate_death (none ∷ ms) a p e f s = rw e tt
allocate_death (some b ∷ ms) a p e f s =
    rw e (f, record { distinct = s.distinct; handled = s.handled; balanced = s.balanced })

dup-IsTracked :
    (fds : List ℕ) (a : ℕ) (p : Process Listening)
    → p.service.dups ≡ fds
    → Fresh a p.service.listeners
    → IsTracked p
    → Fresh a (dup p).1.service.listeners × IsTracked (dup p).1
unfolding dup
dup-IsTracked [] a p e f s =
    rw e (f, record { distinct = s.distinct; handled = s.handled; balanced = s.balanced })
dup-IsTracked (fd ∷ fds) a p e f s =
    rw e (f, record { distinct = s.distinct; handled = s.handled; balanced = s.balanced })

on_add_listener-IsTracked :
    (msg r : BinderIo) (p : Process Listening)
    → IsTracked p
    → IsUnused p.service.mallocs p.service.listeners
    → Keeps (on_add_listener msg r p)
unfolding on_add_listener
on_add_listener-IsTracked msg r p s u =
    UnlessFault-bind (allocate p) _ (λ x. Fresh x.0 x.1.service.listeners × IsTracked x.1) _
      (allocate-IsTracked p.service.mallocs p refl u s)
      (λ x h.
        let d = dup-IsTracked x.1.service.dups x.0 x.1 refl h.0 h.1 in
        UnlessFault-bind (allocate (dup x.1).1) _
          (λ y. Fresh x.0 y.1.service.listeners × IsTracked y.1) _
          (allocate_death (dup x.1).1.service.mallocs x.0 (dup x.1).1 refl d.0 d.1)
          (λ y k. IsTracked-mem _ _ (add_listener-IsTracked _ y.1 k.1 k.0)))

del_listener-IsTracked :
    (uid : ℕ) (ds : List ListenerDesc) (p : Process Listening)
    → IsTracked p
    → UnlessFault (del_listener uid ds p) (λ x. IsTracked x.1)
unfolding del_listener use_erased
del_listener-IsTracked uid [] p s = s
del_listener-IsTracked uid (d ∷ ds) p s = elim (Bool-cases (uid == d.uid)) [
  | inl y ↦ rw (del_listener, y) tt
  | inr n ↦ rw (del_listener, n) (del_listener-IsTracked uid ds p s)
]

-- Whatever request arrives, the input manager does not wait, and if no pointer is used that is not
-- to be used, its list has no description twice, every listener has a handle, and the references
-- held on every handle are as many as the listeners that have it. This state is given before, and
-- malloc returns no description that is in the list.
pub on_transact-IsTracked :
    (txn : Txn) (msg r : BinderIo) (p : Process Listening)
    → IsTracked p
    → IsUnused p.service.mallocs p.service.listeners
    → UnlessFault (on_transact txn msg r p) (λ a. IsTracked a.process)
unfolding on_transact on_del_listener
on_transact-IsTracked txn msg r p s u =
    UnlessFault-if ((get_uint32 p.mem msg).0 == 0) _ _ (λ a. IsTracked a.process)
      (UnlessFault-if (txn.code == 1) _ _ (λ a. IsTracked a.process)
        (on_add_listener-IsTracked (get_uint32 p.mem msg).1 r p s u)
        (UnlessFault-if (txn.code == 2) _ _ (λ a. IsTracked a.process)
          (UnlessFault-bind
            (del_listener (get_uint32 p.mem (get_uint32 p.mem msg).1).0 p.service.listeners p) _
            (λ x. IsTracked x.1) (λ a. IsTracked a.process)
            (del_listener-IsTracked (get_uint32 p.mem (get_uint32 p.mem msg).1).0
              p.service.listeners p s)
            (λ x h. IsTracked-mem _ x.1 h))
          s))
      (IsTracked-mem _ p s)
