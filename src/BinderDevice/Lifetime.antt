-- ===== src/BinderDevice/Lifetime.antt =====
-- What binderOpen and binderClose of system/binder/Binder.cpp leave behind.
use zeus_os.Base.{
  ℕ, ◌≡◌, ◌≢◌, refl, inl, inr, Bool-cases, Option-cases, true, false, none, some, [], ◌∷◌, ◌++◌,
  arith, ◌==◌,
}
use zeus_os.Binder.{done, fault}
use zeus_os.InputReader.{without}
use zeus_os.BinderDevice.{
  Kernel, Library, set_up, binder_open, binder_close, binder_become_context_manager,
  binder_set_maxthreads, current_protocol_version,
}

abbrev pub unused : Library
unused = record { open_fds = []; mappings = []; state = none; has_object = false }

set_up_failed :
    (k : Kernel) (fd : ℕ) (l : Library) → (set_up k fd l).0 ≡ false → (set_up k fd l).1.state ≡ none
unfolding set_up
set_up_failed k fd l e = elim (Option-cases k.version) [
  | inl gone ↦ rw (gone, set_up) refl
  | inr (v, w) ↦ elim (Bool-cases (v == current_protocol_version)) [
    | inr other ↦ rw (w, set_up, other) refl
    | inl same ↦ elim (Option-cases k.mapped) [
      | inl unmapped ↦ rw (w, set_up, same, unmapped) refl
      | inr (a, m) ↦ (let no : true ≡ false = rw (w, set_up, same, m) at e in cc)
    ]
  ]
]

binder_open_failed :
    (k : Kernel) (l : Library) → (binder_open k l).0 ≡ false → (binder_open k l).1.state ≡ none
unfolding binder_open
binder_open_failed k l e = elim (Option-cases k.opened) [
  | inl closed ↦ rw (closed, binder_open) refl
  | inr (fd, o) ↦
      rw (o, binder_open)
        (set_up_failed k fd (record l { open_fds = l.open_fds ++ fd ∷ [] })
          (rw (o, binder_open) at e))
]

-- A process that has opened the device with success and closes it has given back the descriptor and
-- the mapping. After any failure to open it, binderClose, binderBecomeContextManager and
-- binderSetMaxthreads use a deleted object. When the mapping fails the descriptor is closed, and when
-- the version of the driver is another than the library's it stays open.
pub binder_close-binder_open :
    (fd address version : ℕ)
    → (version ≡ current_protocol_version
        → binder_close
            (binder_open
              (record { opened = some fd; version = some version; mapped = some address })
              unused).1
          ≡ done unused)
      × ((k : Kernel)
          → (binder_open k unused).0 ≡ false
          → (binder_close (binder_open k unused).1 ≡ fault)
            × ((result : ℕ) → binder_become_context_manager result (binder_open k unused).1 ≡ fault)
            × ((threads : ℕ) → binder_set_maxthreads threads (binder_open k unused).1 ≡ fault))
      × ((k : Kernel)
          → k.opened ≡ some fd
          → k.version ≡ some current_protocol_version
          → k.mapped ≡ none
          → (binder_open k unused).1.open_fds ≡ [])
      × ((k : Kernel)
          → k.opened ≡ some fd
          → k.version ≡ some version
          → version ≢ current_protocol_version
          → (binder_open k unused).1.open_fds ≡ fd ∷ [])
unfolding binder_open set_up binder_close binder_become_context_manager binder_set_maxthreads
    without
binder_close-binder_open fd address version = (
  λ e. rw e (ground arith),
  λ k e. (
    rw (binder_close, binder_open_failed k unused e) refl,
    λ result. rw (binder_become_context_manager, binder_open_failed k unused e) refl,
    λ threads. rw (binder_set_maxthreads, binder_open_failed k unused e) refl,
  ),
  λ k o v m. rw (o, binder_open, set_up, v, m) (ground arith),
  λ k o v n. rw (o, binder_open, set_up, v, other version n) refl,
)
  where
    other : (v : ℕ) → v ≢ current_protocol_version → (v == current_protocol_version) ≡ false
    other v n = ground arith
