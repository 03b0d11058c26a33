-- ===== src/InputManager/Delivery.antt =====
-- Who gets the events that BnInputManager::dispatchEvent of frameworks/inputmanager/InputManager.cpp
-- writes: from the request of a listener on, until its death.
use zeus_os.Base.{
  ℕ, ◌+◌, ◌≡◌, ◌≢◌, refl, ap, ◌∙◌, inl, inr, false, Bool, true, Bool-cases, Option, some, List, [],
  ◌∷◌, ◌++◌, arith, ◌==◌, if◌then◌else◌,
}
use zeus_os.Parcel.{BinderIo, Txn, get_uint32, get_string8, get_fd, get_ref}
use zeus_os.Binder.{
  fault, Process, Answer, release, Returns, binder_release, binder_acquire, binder_link_to_death,
}
use zeus_os.EventDevice.{CookEvent}
use zeus_os.InputManager.{
  ListenerDesc, Listening, shares_bit, wants, dispatched, add_listener, remove, drop_listener,
  input_binder_death, can_print, with_death, listener_death, allocate, dup, on_add_listener,
  on_transact,
}
use zeus_os.InputManager.Listeners.{
  Distinct, IsTracked, drop_listener-IsTracked, with_death-handled, with_death-Fresh,
  remove-Fresh_same,
}

dispatched-append :
    (e : CookEvent) (ds : List ListenerDesc) (d : ListenerDesc)
    → dispatched e (ds ++ d ∷ []) ≡ dispatched e ds ++ (if wants e d then (d.fd, e) ∷ [] else [])
unfolding dispatched
dispatched-append e [] d = refl
dispatched-append e (x ∷ ds) d = elim (Bool-cases (wants e x)) [
  | inl y ↦ rw y (ap (λ ws. (x.fd, e) ∷ ws) (dispatched-append e ds d))
  | inr n ↦ rw n (dispatched-append e ds d)
]

not_equal : (a b : ℕ) → a ≢ b → (a == b) ≡ false
not_equal a b n = ground arith

add_listener-accepted :
    (d : ListenerDesc) (p : Process Listening)
    → d.handle ≢ 0
    → ((add_listener d p).0 ≡ 0)
      × ((add_listener d p).1.service.listeners ≡ p.service.listeners ++ d ∷ [])
unfolding add_listener binder_acquire binder_link_to_death
add_listener-accepted d p n = rw (not_equal d.handle 0 n) (refl, refl)

-- What a listener asks for in its message.
abbrev pub rest_of : BinderIo → Process Listening → BinderIo
rest_of msg p = (get_uint32 p.mem msg).1

-- The type of events in the message, and its handle.
abbrev pub asked_type : BinderIo → Process Listening → ℕ
asked_type msg p = (get_uint32 p.mem (rest_of msg p)).0

abbrev pub asked_handle : BinderIo → Process Listening → ℕ
asked_handle msg p =
    let after_fd = (get_fd p.mem (get_uint32 p.mem (get_uint32 p.mem (rest_of msg p)).1).1).1 in
    (get_ref p.mem (get_string8 p.mem after_fd).2).0

-- The listener of a request gets the events of its type on the descriptor that dup returned, and
-- the others get what they got before.
abbrev pub IsSubscribed : ℕ → ℕ → Process Listening → Answer Listening → Type 0
IsSubscribed type fd p a =
    (a.status ≡ 0)
    × ((e : CookEvent)
        → dispatched e a.process.service.listeners
          ≡ dispatched e p.service.listeners
            ++ (if shares_bit 32 e.type type then (fd, e) ∷ [] else []))

dup-listeners :
    (fds : List ℕ) (p : Process Listening)
    → p.service.dups ≡ fds
    → (dup p).1.service.listeners ≡ p.service.listeners
unfolding dup
dup-listeners [] p e = rw e refl
dup-listeners (fd ∷ fds) p e = rw e refl

on_add_listener-IsSubscribed :
    (msg r : BinderIo) (p : Process Listening) (a b fd : ℕ) (ms : List (Option ℕ)) (fds : List ℕ)
    → (get_ref p.mem
        (get_string8 p.mem (get_fd p.mem (get_uint32 p.mem (get_uint32 p.mem msg).1).1).1).2).0
      ≢ 0
    → p.service.mallocs ≡ some a ∷ some b ∷ ms
    → p.service.dups ≡ fd ∷ fds
    → Returns (on_add_listener msg r p) (IsSubscribed (get_uint32 p.mem msg).0 fd p)
unfolding on_add_listener allocate dup
on_add_listener-IsSubscribed msg r p a b fd ms fds h m d =
    rw (on_add_listener, allocate, m, dup, d)
      (
        refl,
        λ e.
            ap (dispatched e) (add_listener-accepted _ _ h).1
            ∙ dispatched-append e _ _
            ∙ ap
                (λ ds.
                  dispatched e ds
                  ++ (if shares_bit 32 e.type (get_uint32 p.mem msg).0 then (fd, e) ∷ [] else []))
                (dup-listeners (fd ∷ fds)
                  (record p { service = record (p.service) { mallocs = some b ∷ ms } }) d),
      )

-- A request to add a listener is accepted when its message begins with the zero of the policy and
-- holds a handle, when malloc returns twice and dup once: from then on every event that shares a bit
-- with the type of the message is written to that descriptor, after the writes to the listeners
-- before, which are unchanged.
pub on_transact-IsSubscribed :
    (txn : Txn) (msg r : BinderIo) (p : Process Listening) (a b fd : ℕ) (ms : List (Option ℕ))
    (fds : List ℕ)
    → txn.code ≡ 1
    → (get_uint32 p.mem msg).0 ≡ 0
    → asked_handle msg p ≢ 0
    → p.service.mallocs ≡ some a ∷ some b ∷ ms
    → p.service.dups ≡ fd ∷ fds
    → Returns (on_transact txn msg r p) (IsSubscribed (asked_type msg p) fd p)
unfolding on_transact on_add_listener allocate dup
on_transact-IsSubscribed txn msg r p a b fd ms fds c z h m d =
    rw (c, on_transact, z) (on_add_listener-IsSubscribed (rest_of msg p) r p a b fd ms fds h m d)

-- How many writes go to a descriptor.
abbrev pub writes_to : ℕ → List (ℕ × CookEvent) → ℕ
writes_to fd [] = 0
writes_to fd (w ∷ ws) = (if w.0 == fd then 1 else 0) + writes_to fd ws

writes_to-remove :
    (fd : ℕ) (e : CookEvent) (a : ℕ) (ds : List ListenerDesc) (d : ListenerDesc)
    → Distinct ds
    → with_death a ds ≡ some d
    → writes_to fd (dispatched e (remove d.address ds))
        + (if wants e d then (if d.fd == fd then 1 else 0) else 0)
      ≡ writes_to fd (dispatched e ds)
unfolding dispatched remove with_death
writes_to-remove fd e a [] d i f = cc
writes_to-remove fd e a (x ∷ ds) d i f = ground (
  arith,
  writes_to-remove fd e a ds d i.1,
  with_death-Fresh a x.address ds d i.0,
  remove-Fresh_same x.address ds i.0,
)

-- What the death of a listener leaves.
abbrev pub IsLeft : ListenerDesc → Process Listening → Process Listening → Type 0
IsLeft d p q =
    IsTracked q
    × (q.sent ≡ p.sent ++ release d.handle ∷ [])
    × ((fd : ℕ) (e : CookEvent)
        → writes_to fd (dispatched e q.service.listeners)
            + (if wants e d then (if d.fd == fd then 1 else 0) else 0)
          ≡ writes_to fd (dispatched e p.service.listeners))

drop_listener-removes :
    (d : ListenerDesc) (p : Process Listening)
    → d.handle ≢ 0
    → ((drop_listener d p).sent ≡ p.sent ++ release d.handle ∷ [])
      × ((drop_listener d p).service.listeners ≡ remove d.address p.service.listeners)
unfolding drop_listener binder_release
drop_listener-removes d p n = rw (not_equal d.handle 0 n) (refl, refl)

-- When the driver tells of the death of a listener whose name can still be printed, its reference is
-- given back, the list keeps its state, and every descriptor is written the events that it was written
-- before, less those of this listener; when the name cannot be printed the behaviour is undefined. The
-- address is that of the BinderDeath of a listener in the list.
pub listener_death-IsLeft :
    (mapped : ℕ → Bool) (a : ℕ) (d : ListenerDesc) (p : Process Listening)
    → with_death a p.service.listeners ≡ some d
    → IsTracked p
    → (can_print mapped p.mem d.name ≡ true → Returns (listener_death mapped a p) (IsLeft d p))
      × (can_print mapped p.mem d.name ≡ false → listener_death mapped a p ≡ fault)
unfolding listener_death input_binder_death drop_listener binder_release
listener_death-IsLeft mapped a d p e s =
    let gone = drop_listener-removes d p (with_death-handled a p.service.listeners d s.handled e) in
    (
      λ y.
          rw (listener_death, e, input_binder_death, y)
            (
              drop_listener-IsTracked a d p e s,
              gone.0,
              λ fd ev.
                  ap
                    (λ ds.
                      writes_to fd (dispatched ev ds)
                      + (if wants ev d then (if d.fd == fd then 1 else 0) else 0))
                    gone.1
                  ∙ writes_to-remove fd ev a p.service.listeners d s.distinct e,
            ),
      λ n. rw (listener_death, e, input_binder_death, n) refl,
    )
