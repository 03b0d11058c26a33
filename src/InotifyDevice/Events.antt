-- ===== src/InotifyDevice/Events.antt =====
-- InotifyDevice::process of frameworks/inputmanager/InotifyDevice.cpp on a buffer that holds whole
-- events.
use zeus_os.Base.{
  ℕ, zero, suc, ◌+◌, ◌-◌, ◌≤◌, ◌<◌, ◌≡◌, ◌≢◌, refl, ap, ◌∙◌, ◌⊎◌, inl, inr, false, some, List, [],
  ◌∷◌, arith, lt→ltb, le→leb, leb-false, ltb-false, ==_iff, ◌==◌, ◌^◌, if◌then◌else◌, length,
}
use zeus_os.Memory.{Mem, load_word}
use zeus_os.Binder.{Outcome, done, fault, blocked, ◌>>=◌}
use zeus_os.EventDevice.{CookEvent}
use zeus_os.ServiceManager.Texts.{IsText, strlen-IsText}
use zeus_os.FileSystem.{FilePath}
use zeus_os.InotifyDevice.{
  Inotify, Noticed, Surroundings, notice_event, read_event, event_size, process_events, process,
  header_size,
}

-- struct inotify_event: `len` is the room of the name, 0 for none.
pub record InotifyEvent : Type 0 where
  pub wd : ℕ
  pub mask : ℕ
  pub len : ℕ
  pub name : FilePath

-- An event at an address.
pub record IsAt (buf : Mem) (pos : ℕ) (e : InotifyEvent) : Type 0 where
  pub wd_word : load_word buf pos ≡ e.wd
  pub mask_word : load_word buf (pos + 4) ≡ e.mask
  pub len_word : load_word buf (pos + 12) ≡ e.len
  pub named : (e.len ≡ 0) ⊎ (IsText buf (pos + 16) e.name × (length e.name < e.len))

abbrev pub event_sizes : List InotifyEvent → ℕ
event_sizes [] = 0
event_sizes (e ∷ es) = header_size + e.len + event_sizes es

abbrev pub HoldsEvents : Mem → ℕ → List InotifyEvent → Type 0
HoldsEvents buf pos [] = Unit
HoldsEvents buf pos (e ∷ es) = IsAt buf pos e × HoldsEvents buf (pos + (header_size + e.len)) es

-- What the events mean: one that has no name is passed over.
unfoldable pub follow_events : Surroundings → List InotifyEvent → Noticed → Outcome Noticed
follow_events env [] n = done n
follow_events env (e ∷ es) n =
    if e.len == 0
    then follow_events env es n
    else notice_event env e.wd e.mask e.name n >>= follow_events env es

read_event-unnamed :
    (env : Surroundings) (buf : Mem) (pos : ℕ) (n : Noticed)
    → load_word buf (pos + 12) ≡ 0
    → read_event env buf pos n ≡ done n
unfolding read_event
read_event-unnamed env buf pos n e = rw (e, read_event) refl

read_event-named :
    (env : Surroundings) (buf : Mem) (pos : ℕ) (e : InotifyEvent) (n : Noticed)
    → IsAt buf pos e
    → e.len ≢ 0
    → IsText buf (pos + 16) e.name
    → pos + 16 + length e.name < 512
    → read_event env buf pos n ≡ notice_event env e.wd e.mask e.name n
unfolding read_event
read_event-named env buf pos e n at z t l =
    rw
      (
        at.len_word,
        read_event,
        nonzero e.len z,
        strlen-IsText (512 - (pos + 16)) buf (pos + 16) e.name t (omega arith),
        at.wd_word,
        at.mask_word,
        t.spelled,
      )
      refl
  where
    nonzero : (k : ℕ) → k ≢ 0 → (k == 0) ≡ false
    nonzero k z = ground arith

bind_cong :
    (o : Outcome Noticed) (f g : Noticed → Outcome Noticed)
    → ((n : Noticed) → f n ≡ g n)
    → (o >>= f) ≡ (o >>= g)
bind_cong (done n) f g h = h n
bind_cong fault f g h = refl
bind_cong blocked f g h = refl

-- A round of the loop: the event, and the rest.
event_size-len :
    (buf : Mem) (pos len : ℕ)
    → load_word buf (pos + 12) ≡ len
    → 16 + len ≤ 512
    → event_size buf pos ≡ 16 + len
unfolding event_size
event_size-len buf pos len e l = omega (arith, e)

-- A round of the loop: the event, and the rest.
process_events_round :
    (f : ℕ) (env : Surroundings) (buf : Mem) (pos res size : ℕ) (n : Noticed)
    → event_size buf pos ≡ size
    → 16 ≤ size
    → size ≤ res
    → res ≤ 512
    → process_events (suc f) env buf pos res n
      ≡ (read_event env buf pos n >>= process_events f env buf (pos + size) (res - size))
unfolding process_events
process_events_round f env buf pos res size n e g l u =
    rw (process_events, le→leb 16 res (omega arith), e, lt→ltb size (2 ^ 31) (omega arith))
      (ap (λ k. read_event env buf pos n >>= process_events f env buf (pos + k) (res - k)) e)

process_events-follow_events :
    (f : ℕ) (env : Surroundings) (buf : Mem) (pos res : ℕ) (es : List InotifyEvent) (n : Noticed)
    → res < f
    → res ≡ event_sizes es
    → pos + res ≤ 512
    → HoldsEvents buf pos es
    → process_events f env buf pos res n ≡ follow_events env es n
unfolding follow_events process_events
process_events-follow_events zero env buf pos res es n l e u h = absurd (omega arith)
process_events-follow_events (suc f) env buf pos res [] n l e u h =
    rw (process_events, leb-false 16 res (omega arith)) refl
process_events-follow_events (suc f) env buf pos res (x ∷ es) n l e u h =
    let rest : (m : Noticed)
        → process_events f env buf (pos + (16 + x.len)) (res - (16 + x.len)) m
          ≡ follow_events env es m =
      λ m.
        process_events-follow_events f env buf (pos + (16 + x.len)) (res - (16 + x.len)) es m
          (omega arith) (omega arith) (omega arith) h.1 in
    process_events_round f env buf pos res (16 + x.len) n
      (event_size-len buf pos x.len h.0.len_word (omega arith)) (omega arith) (omega arith)
      (omega arith)
    ∙ elim h.0.named [
      | inl z ↦
          rw
            (
              read_event-unnamed env buf pos n (h.0.len_word ∙ z),
              follow_events,
              (==_iff x.len 0).1 z,
            )
            (rest n)
      | inr (t, short) ↦
          rw
            (
              read_event-named env buf pos x n h.0 (omega arith) t (omega arith),
              follow_events,
              nonzero x.len (omega arith),
            )
            (bind_cong (notice_event env x.wd x.mask x.name n) _ _ rest)
    ]
  where
    nonzero : (k : ℕ) → 0 < k → (k == 0) ≡ false
    nonzero k z = ground arith

abbrev pub start : List CookEvent → Inotify → Noticed
start events s = record { ret = 0; events = events; state = s }

-- The loop of `process` does what the events in the buffer mean, one after the other: it starts the
-- first where `iRet` is 0, skips those without a name, and ends at the end of what read has
-- delivered. The buffer holds at least one event, and whole events of at most 512 bytes together,
-- each name with its terminator inside the room it has.
pub process-follow_events :
    (env : Surroundings) (errno : ℕ) (buf : Mem) (e : InotifyEvent) (es : List InotifyEvent)
    (events : List CookEvent) (s : Inotify)
    → event_sizes (e ∷ es) ≤ 512
    → HoldsEvents buf 0 (e ∷ es)
    → process env (some (event_sizes (e ∷ es))) errno buf events s
      ≡ follow_events env (e ∷ es) (start events s)
unfolding process
process-follow_events env errno buf e es events s l h =
    rw (process, ltb-false (event_sizes (e ∷ es)) 16 (omega arith))
      (process_events-follow_events 513 env buf 0 (event_sizes (e ∷ es)) (e ∷ es) (start events s)
        (omega arith) refl (omega arith) h)
