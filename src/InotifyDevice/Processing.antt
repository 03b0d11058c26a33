-- ===== src/InotifyDevice/Processing.antt =====
-- InotifyDevice::process of frameworks/inputmanager/InotifyDevice.cpp on the array of its caller.
use zeus_os.Base.{
  ℕ, ◌+◌, ◌*◌, ◌^◌, ◌≤◌, ◌<◌, ◌≡◌, refl, ◌∙◌, ◌⊎◌, inl, inr, false, Bool-cases, some, List, [], ◌∷◌,
  arith, ◌==◌, length, All,
}
use zeus_os.Memory.{Mem}
use zeus_os.Binder.{Returns, Returns-bind, Returns-weaken}
use zeus_os.EventDevice.{CookEvent}
use zeus_os.InputManager.{shares_bit}
use zeus_os.FileSystem.{FilePath}
use zeus_os.InotifyDevice.{Inotify, Noticed, Surroundings, notice_event, process, in_create}
use zeus_os.InotifyDevice.Trees.{IsShallow}
use zeus_os.InotifyDevice.Events.{
  InotifyEvent, HoldsEvents, event_sizes, follow_events, start, process-follow_events,
}
use zeus_os.InotifyDevice.Notices.{
  IsNoticed, IsKnown, AreOpen, Returns-if, process_create-IsNoticed, process_remove-IsNoticed,
}

module _ (env : Surroundings) (shallow : IsShallow env.files) (open_all : AreOpen env.files) where
  notice_event-IsNoticed :
      (wd mask : ℕ) (name : FilePath) (n : Noticed)
      → n.ret < length n.events
      → n.ret < 2 ^ 31
      → IsKnown wd n.state
      → Returns (notice_event env wd mask name n) (λ m.
        (m.ret ≤ n.ret + 1)
        × (length m.events ≡ length n.events)
        × ((x : ℕ) → IsKnown x n.state → IsKnown x m.state))
  unfolding notice_event
  notice_event-IsNoticed wd mask name n l u k =
      Returns-bind _ _ (IsNoticed n.events n.state) _
        (Returns-if (shares_bit 32 mask in_create) _ _ (IsNoticed n.events n.state)
          (λ _.
            process_create-IsNoticed env.files shallow open_all env.str_tmp _ wd name n.ret n.events
              n.state l k)
          (process_remove-IsNoticed env.str_tmp _ wd name n.ret n.events n.state l k))
        (λ x i. (omega (arith, i.few), i.size, i.known))

  -- The watches of the events to come are known.
  abbrev AllKnown : List InotifyEvent → Inotify → Type 0
  AllKnown es s = All (λ e. (e.len ≡ 0) ⊎ IsKnown e.wd s) es

  AllKnown-kept :
      (es : List InotifyEvent) (s t : Inotify)
      → ((x : ℕ) → IsKnown x s → IsKnown x t)
      → AllKnown es s
      → AllKnown es t
  AllKnown-kept [] s t h a = tt
  AllKnown-kept (e ∷ es) s t h a =
      (elim a.0 [ inl z ↦ inl z | inr k ↦ inr (h e.wd k) ], AllKnown-kept es s t h a.1)

  IsKnown-wd :
      (e : InotifyEvent) (s : Inotify)
      → (e.len == 0) ≡ false
      → (e.len ≡ 0) ⊎ IsKnown e.wd s
      → IsKnown e.wd s
  IsKnown-wd e s z (inl y) = absurd (ground arith)
  IsKnown-wd e s z (inr k) = k

  follow_events-returns :
      (es : List InotifyEvent) (n : Noticed)
      → n.ret + length es ≤ length n.events
      → n.ret + length es < 2 ^ 31
      → AllKnown es n.state
      → Returns
          (follow_events env es n)
          (λ m. (m.ret ≤ n.ret + length es) × (length m.events ≡ length n.events))
  unfolding follow_events
  follow_events-returns [] n l u a = (omega arith, refl)
  follow_events-returns (e ∷ es) n l u a = elim (Bool-cases (e.len == 0)) [
    | inl z ↦ rw z (
        Returns-weaken (follow_events env es n) _ _
          (follow_events-returns es n (omega arith) (omega arith) a.1)
          (λ m b. (omega (arith, b.0), b.1)))
    | inr z ↦ rw z (
        Returns-bind (notice_event env e.wd e.mask e.name n) (follow_events env es) _ _
          (notice_event-IsNoticed e.wd e.mask e.name n (omega arith) (omega arith)
            (IsKnown-wd e n.state z a.0))
          (λ m b.
            Returns-weaken (follow_events env es m) _ _
              (follow_events-returns es m (omega (arith, b.0, b.1)) (omega (arith, b.0))
                (AllKnown-kept es n.state m.state b.2 a.1))
              (λ x c. (omega (arith, b.0, c.0), c.1 ∙ b.1))))
  ]

length-event_sizes : (es : List InotifyEvent) → 16 * length es ≤ event_sizes es
length-event_sizes [] = omega arith
length-event_sizes (e ∷ es) = omega (arith, length-event_sizes es)

-- On whole events `process` returns a number that is at most that of the events read, and leaves an
-- array of the same size: it does not run out of the array, does not use a watch that it does not
-- know, and does not lose itself in a tree. The watch of every event with a name is known
-- when `process` is called, the array has room for as many events as are read, every character
-- device can be opened, and no directory has a path of 255 characters or more.
pub process_returns :
    (env : Surroundings) (errno : ℕ) (buf : Mem) (e : InotifyEvent) (es : List InotifyEvent)
    (events : List CookEvent) (s : Inotify)
    → IsShallow env.files
    → AreOpen env.files
    → event_sizes (e ∷ es) ≤ 512
    → HoldsEvents buf 0 (e ∷ es)
    → length (e ∷ es) ≤ length events
    → All (λ x. (x.len ≡ 0) ⊎ IsKnown x.wd s) (e ∷ es)
    → Returns
        (process env (some (event_sizes (e ∷ es))) errno buf events s)
        (λ n. (n.ret ≤ length (e ∷ es)) × (length n.events ≡ length events))
process_returns env errno buf e es events s shallow open_all l h room known =
    rw (process-follow_events env errno buf e es events s l h) (
      Returns-weaken (follow_events env (e ∷ es) (start events s)) _ _
        (follow_events-returns env shallow open_all (e ∷ es) (start events s) (omega arith)
          (omega (arith, length-event_sizes (e ∷ es))) known)
        (λ n b. (omega (arith, b.0), b.1)))
