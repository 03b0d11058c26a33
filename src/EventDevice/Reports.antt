-- ===== src/EventDevice/Reports.antt =====
-- What one event of the kernel does to the array of EventDevice::process in
-- frameworks/inputmanager/EventDevice.cpp.
use zeus_os.Base.{
  ℕ, zero, suc, ◌+◌, ◌<◌, ◌≡◌, ◌≢◌, refl, sym, ap, subst, inl, inr, true, false, Bool-cases, List,
  [], ◌∷◌, arith, length, get_elem?, ◌==◌, if◌then◌else◌,
}
use zeus_os.Binder.{Outcome, done, fault, blocked, ◌>>=◌, Returns, Returns-bind}
use zeus_os.EventDevice.{
  edit, CookEvent, InputEvent, Timeval, Cooking, write_event, report, cook_event, cook_touch_event,
  cook_key_event, is_report, ev_abs, ev_key,
}

-- A run goes on into undefined behaviour.
pub fault-bind {ℓ κ} :
    {A : Type ℓ} {B : Type κ} (o : Outcome A) (f : A → Outcome B) (Q : A → Type 0)
    → Returns o Q
    → ((a : A) → Q a → f a ≡ fault)
    → (o >>= f) ≡ fault
fault-bind (done a) f Q h k = k a h
fault-bind fault f Q h k = refl
fault-bind blocked f Q h k = absurd h

-- Only the event with that number may have changed.
abbrev pub ChangesAt : ℕ → List CookEvent → List CookEvent → Type 0
ChangesAt i cs cs' = (length cs' ≡ length cs) × ((j : ℕ) → j ≢ i → get_elem? cs' j ≡ get_elem? cs j)

write_event-ChangesAt :
    (i : ℕ) (f : CookEvent → CookEvent) (cs : List CookEvent)
    → i < length cs
    → Returns (write_event i f cs) (ChangesAt i cs)
unfolding write_event
write_event-ChangesAt i f [] l = absurd (omega arith)
write_event-ChangesAt zero f (c ∷ cs) l = (refl, λ j n. other j n)
  where
    other : (j : ℕ) → j ≢ 0 → get_elem? (f c ∷ cs) j ≡ get_elem? (c ∷ cs) j
    other zero n = absurd (n refl)
    other (suc j) n = refl
write_event-ChangesAt (suc i) f (c ∷ cs) l =
    Returns-bind (write_event i f cs) _ (ChangesAt i cs) (ChangesAt (suc i) (c ∷ cs))
      (write_event-ChangesAt i f cs (omega arith))
      (λ cs' h. (omega (arith, h.0), λ j n. behind cs' h j n))
  where
    behind :
        (cs' : List CookEvent)
        → ChangesAt i cs cs'
        → (j : ℕ) → j ≢ suc i
        → get_elem? (c ∷ cs') j ≡ get_elem? (c ∷ cs) j
    behind cs' h zero n = refl
    behind cs' h (suc j) n = h.1 j (λ e. n (ap suc e))

abbrev pub reports_in : InputEvent → ℕ
reports_in iev = if is_report iev then 1 else 0

-- One event of the kernel counts if it is a report, and touches the event that is being filled.
abbrev pub IsTurn : InputEvent → Cooking → Cooking → Type 0
IsTurn iev s s' = (s'.count ≡ s.count + reports_in iev) × ChangesAt s.count s.events s'.events

edited :
    (iev : InputEvent) (f : CookEvent → CookEvent) (g : List CookEvent → Cooking) (s : Cooking)
    → s.count < length s.events
    → ((cs : List CookEvent) → (g cs).count ≡ s.count + reports_in iev)
    → ((cs : List CookEvent) → (g cs).events ≡ cs)
    → Returns (write_event s.count f s.events >>= λ cs. done (g cs)) (IsTurn iev s)
edited iev f g s l e v =
    Returns-bind (write_event s.count f s.events) _ (ChangesAt s.count s.events) (IsTurn iev s)
      (write_event-ChangesAt s.count f s.events l)
      (λ cs h. (e cs, subst (ChangesAt s.count s.events) (sym (v cs)) h))

no_report : (iev : InputEvent) (t : ℕ) → (iev.type == suc t) ≡ true → is_report iev ≡ false
no_report iev t h = ground arith

not_counted : (iev : InputEvent) (n : ℕ) → is_report iev ≡ false → n ≡ n + reports_in iev
not_counted iev n r = rw r (omega arith)

counted : (iev : InputEvent) (n : ℕ) → is_report iev ≡ true → suc n ≡ n + reports_in iev
counted iev n r = rw r (omega arith)

edit-IsTurn :
    (f : CookEvent → CookEvent) (iev : InputEvent) (s : Cooking)
    → s.count < length s.events
    → is_report iev ≡ false
    → Returns (edit f s) (IsTurn iev s)
edit-IsTurn f iev s l r =
    edited iev f (λ cs. record s { events = cs }) s l (λ cs. not_counted iev s.count r) (λ cs. refl)

pub cook_event-IsTurn :
    (clock : ℕ → Timeval) (iev : InputEvent) (s : Cooking)
    → s.count < length s.events
    → Returns (cook_event clock iev s) (IsTurn iev s)
unfolding cook_event report
cook_event-IsTurn clock iev s l = elim (Bool-cases (iev.type == ev_abs)) [
  | inl a ↦
      rw (cook_event, a)
        (Returns-bind (edit (cook_touch_event iev) s) _ (IsTurn iev s) (IsTurn iev s)
          (edit-IsTurn (cook_touch_event iev) iev s l (no_report iev 2 a)) (λ s' t. t))
  | inr a ↦ elim (Bool-cases (iev.type == ev_key)) [
    | inl k ↦ rw (cook_event, a, k) (edit-IsTurn (cook_key_event iev) iev s l (no_report iev 0 k))
    | inr k ↦ elim (Bool-cases (is_report iev)) [
      | inl r ↦
          rw (cook_event, a, k, r) (edited iev _ _ s l (λ cs. counted iev s.count r) (λ cs. refl))
      | inr r ↦ rw (cook_event, a, k, r) (not_counted iev s.count r, (refl, λ j n. refl))
    ]
  ]
]
