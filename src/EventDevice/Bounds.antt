-- ===== src/EventDevice/Bounds.antt =====
-- How many events EventDevice::process of frameworks/inputmanager/EventDevice.cpp delivers, and where
-- it writes them.
use zeus_os.Base.{
  ℕ, zero, suc, ◌+◌, ◌*◌, ◌/◌, ◌%◌, ◌<◌, ◌≤◌, ◌≡◌, refl, ap, subst, ◌∙◌, inl, inr, Bool, true,
  false, ◌&&◌, Bool-cases, List, arith, length, get_elem?, ◌==◌, if◌then◌else◌, ltb, le→leb,
  leb-false, ◌⊎◌, ==_iff,
}
use zeus_os.Binder.{done, fault, ◌>>=◌, Returns, Returns-bind, Returns-weaken}
use zeus_os.EventDevice.{
  CookEvent, InputEvent, Timeval, Cooking, cook_event, cook_events, is_report, process,
  process_events, start_cooking, got, Processed, failed, eagain, eintr, minus_one,
}
use zeus_os.EventDevice.Reports.{fault-bind, IsTurn, ChangesAt, reports_in, cook_event-IsTurn}

-- The reports among the `n` entries of a buffer from `i` on.
abbrev pub reports : ℕ → ℕ → (ℕ → InputEvent) → ℕ
reports zero i buffer = 0
reports (suc n) i buffer = reports_in (buffer i) + reports n (i + 1) buffer

-- Nothing of the array changes from behind the event that may be half filled.
abbrev pub ChangesUpTo : ℕ → List CookEvent → List CookEvent → Type 0
ChangesUpTo c cs cs' =
    (length cs' ≡ length cs) × ((j : ℕ) → c < j → get_elem? cs' j ≡ get_elem? cs j)

abbrev smaller : ℕ → ℕ → ℕ
smaller a b = if ltb a b then a else b

-- The count is that of the reports, up to the size.
abbrev IsCooked : ℕ → ℕ → Cooking → Cooking → Type 0
IsCooked size n s s' =
    (s'.count ≡ smaller (s.count + n) size) × ChangesUpTo s'.count s.events s'.events

behind : (c c' : ℕ) (cs cs' : List CookEvent) → c ≤ c' → ChangesAt c cs cs' → ChangesUpTo c' cs cs'
behind c c' cs cs' l h = (h.0, λ j g. h.1 j (λ e. absurd (omega arith)))

-- A turn in front of the rest.
onwards :
    (size r n : ℕ) (s s' s'' : Cooking)
    → s'.count < size
    → s'.count ≡ s.count + r
    → ChangesAt s.count s.events s'.events
    → IsCooked size n s' s''
    → IsCooked size (r + n) s s''
onwards size r n s s' s'' l c h k = (
  ground (arith, c, k.0),
  (k.1.0 ∙ h.0, λ j g. k.1.1 j g ∙ h.1 j (λ e. absurd (ground (arith, c, k.0)))),
)

counts_on :
    (iev : InputEvent) (b : Bool) (c c' : ℕ)
    → is_report iev ≡ b
    → c' ≡ c + reports_in iev
    → c' ≡ c + (if b then 1 else 0)
counts_on iev b c c' r e = subst (λ x. c' ≡ c + (if x then 1 else 0)) r e

-- What follows one event: a return when the array is full, or the next event.
after_turn :
    (n i : ℕ) (buffer : ℕ → InputEvent) (clock : ℕ → Timeval) (size : ℕ) (s s' : Cooking)
    → i + suc n ≤ 256
    → s.count < size
    → size ≤ length s.events
    → IsTurn (buffer i) s s'
    → (i + 1 + n ≤ 256
        → s'.count < size
        → size ≤ length s'.events
        → Returns
            (cook_events n (i + 1) buffer clock size s')
            (IsCooked size (reports n (i + 1) buffer) s'))
    → Returns
        (elim (is_report (buffer i) && s'.count == size) [
          | true ↦ done s'
          | false ↦ cook_events n (i + 1) buffer clock size s'
        ])
        (IsCooked size (reports (suc n) i buffer) s)
after_turn n i buffer clock size s s' b l u t ih = elim (Bool-cases (is_report (buffer i))) [
  | inr r ↦
      let c = counts_on (buffer i) false s.count s'.count r t.0 in
      rw r (
        Returns-weaken (cook_events n (i + 1) buffer clock size s') _ _
          (ih (omega arith) (omega arith) (omega (arith, t.1.0)))
          (λ s''. onwards size 0 (reports n (i + 1) buffer) s s' s'' (omega arith) c t.1))
  | inl r ↦
      let c = counts_on (buffer i) true s.count s'.count r t.0 in
      elim (Bool-cases (s'.count == size)) [
        | inl y ↦
            rw (r, y)
              (
                ground (arith, (==_iff s'.count size).0 y),
                behind s.count s'.count s.events s'.events (omega arith) t.1,
              )
        | inr n' ↦
            rw (r, n')
              (Returns-weaken (cook_events n (i + 1) buffer clock size s') _ _
                (ih (omega arith) (ground (arith, c, n')) (omega (arith, t.1.0)))
                (λ s''.
                  onwards size 1 (reports n (i + 1) buffer) s s' s'' (ground (arith, c, n')) c t.1))
      ]
]

cook_events-IsCooked :
    (n i : ℕ) (buffer : ℕ → InputEvent) (clock : ℕ → Timeval) (size : ℕ) (s : Cooking)
    → i + n ≤ 256
    → s.count < size
    → size ≤ length s.events
    → Returns (cook_events n i buffer clock size s) (IsCooked size (reports n i buffer) s)
unfolding cook_events
cook_events-IsCooked zero i buffer clock size s b l u = (ground arith, (refl, λ j n. refl))
cook_events-IsCooked (suc n) i buffer clock size s b l u =
    rw (cook_events, leb-false 256 i (omega arith))
      (Returns-bind (cook_event clock (buffer i) s) _ (IsTurn (buffer i) s)
        (IsCooked size (reports (suc n) i buffer) s)
        (cook_event-IsTurn clock (buffer i) s (omega arith))
        (λ s' t.
          after_turn n i buffer clock size s s' b l u t
            (λ b' l' u'. cook_events-IsCooked n (i + 1) buffer clock size s' b' l' u')))

-- What a read of `bytes` bytes comes to.
abbrev pub IsDelivered : ℕ → (ℕ → InputEvent) → List CookEvent → ℕ → Processed → Type 0
IsDelivered bytes buffer events size r =
    (0 < bytes
      → bytes % 16 ≡ 0
      → (r.ret ≡ smaller (reports (bytes / 16) 0 buffer) size)
        × ChangesUpTo r.ret events r.cooked.events)
    × ((bytes ≡ 0) ⊎ (0 < bytes % 16) → (r.ret ≡ minus_one) × (r.cooked.events ≡ events))

test_not : {b : Bool} → b ≡ false → b ≡ true → ⊥
test_not f t = cc

-- A read of whole events, of which the buffer holds 256, comes to an end inside of the buffer and
-- of the caller's array, and delivers as many events as the kernel has reported, up to iSize;
-- behind the event that the last kernel events began to fill the array is left alone. A read of
-- nothing or of a broken event delivers -1 and changes nothing. The caller's iSize is positive and
-- its array has that many places.
pub process-IsDelivered :
    (bytes : ℕ) (buffer : ℕ → InputEvent) (clock : ℕ → Timeval) (events : List CookEvent)
    (size flag : ℕ)
    → bytes ≤ 16 * 256
    → 0 < size
    → size ≤ length events
    → Returns
        (process (got bytes) buffer clock events size flag)
        (IsDelivered bytes buffer events size)
unfolding process process_events
process-IsDelivered bytes buffer clock events size flag b l u = elim (Bool-cases (bytes == 0)) [
  | inl z ↦ rw (process, z) (λ g m. absurd (omega (arith, (==_iff bytes 0).0 z)), λ _. (refl, refl))
  | inr z ↦ elim (Bool-cases (bytes % 16 == 0)) [
    | inr m ↦
        rw (process, z, m)
          (λ g e. absurd (test_not m ((==_iff (bytes % 16) 0).1 e)), λ _. (refl, refl))
    | inl m ↦
        rw (process, z, m)
          (Returns-bind (cook_events (bytes / 16) 0 buffer clock size (start_cooking events flag)) _
            (IsCooked size (reports (bytes / 16) 0 buffer) (start_cooking events flag))
            (IsDelivered bytes buffer events size)
            (cook_events-IsCooked (bytes / 16) 0 buffer clock size (start_cooking events flag)
              (omega arith) l u)
            (λ s' c. (
              λ g e. (ground (arith, c.0), c.1),
              λ bad. absurd (elim bad [
                | inl x ↦ test_not z ((==_iff bytes 0).1 x)
                | inr y ↦ omega (arith, (==_iff (bytes % 16) 0).0 m)
              ]),
            )))
  ]
]

and_false : (a b : Bool) → b ≡ false → (a && b) ≡ false
and_false true b e = e
and_false false b e = refl

cook_events-fault :
    (n i : ℕ) (buffer : ℕ → InputEvent) (clock : ℕ → Timeval) (size : ℕ) (s : Cooking) (k : ℕ)
    → i + k ≡ 256
    → k < n
    → s.count + reports k i buffer < size
    → size ≤ length s.events
    → cook_events n i buffer clock size s ≡ fault
unfolding cook_events
cook_events-fault zero i buffer clock size s k e l r u = absurd (omega arith)
cook_events-fault (suc n) i buffer clock size s zero e l r u =
    rw (cook_events, le→leb 256 i (omega arith)) refl
cook_events-fault (suc n) i buffer clock size s (suc k) e l r u =
    rw (cook_events, leb-false 256 i (omega arith))
      (fault-bind (cook_event clock (buffer i) s) _ (IsTurn (buffer i) s)
        (cook_event-IsTurn clock (buffer i) s (omega arith))
        (λ s' t. rw (and_false (is_report (buffer i)) (s'.count == size) (ground (arith, t.0))) (
          cook_events-fault n (i + 1) buffer clock size s' k (omega arith) (omega arith)
            (omega (arith, t.0)) (omega (arith, t.1.0)))))

from_zero : (x y : ℕ) → x < y → 0 + x < y
from_zero x y l = omega arith

interrupted :
    (buffer : ℕ → InputEvent) (clock : ℕ → Timeval) (events : List CookEvent) (size flag : ℕ)
    → reports 256 0 buffer < size
    → size ≤ length events
    → process_events (minus_one / 16) buffer clock events size flag ≡ fault
unfolding process_events
interrupted buffer clock events size flag r u =
    ap (λ o. o >>= λ s. done (record { ret = s.count; cooked = s }))
      (cook_events-fault (minus_one / 16) 0 buffer clock size (start_cooking events flag) 256 refl
        (omega arith) (from_zero (reports 256 0 buffer) size r) u)

-- A read that is interrupted, or that finds nothing on a device that does not wait, ends in
-- undefined behaviour: the loop takes the failed read for one of 268435455 events and leaves the
-- buffer, unless the bytes that happen to lie in the buffer have enough reports to fill the array.
pub process-fault :
    (errno : ℕ) (buffer : ℕ → InputEvent) (clock : ℕ → Timeval) (events : List CookEvent)
    (size flag : ℕ)
    → (errno ≡ eagain) ⊎ (errno ≡ eintr)
    → reports 256 0 buffer < size
    → size ≤ length events
    → process (failed errno) buffer clock events size flag ≡ fault
unfolding process process_events
process-fault errno buffer clock events size flag (inl e) r u =
    rw (e, process) (interrupted buffer clock events size flag r u)
process-fault errno buffer clock events size flag (inr e) r u =
    rw (e, process) (interrupted buffer clock events size flag r u)
