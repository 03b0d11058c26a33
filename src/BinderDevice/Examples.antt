-- ===== src/BinderDevice/Examples.antt =====
-- The device of system/binder/Binder.cpp, opened as descriptor 3.
use zeus_os.Base.{ℕ, ◌≡◌, ◌≢◌, false, some, none, [], ◌∷◌}
use zeus_os.Binder.{done, fault}
use zeus_os.BinderDevice.{
  Kernel, binder_open, binder_close, binder_become_context_manager, binder_set_maxthreads,
  current_protocol_version,
}
use zeus_os.BinderDevice.Lifetime.{unused, binder_close-binder_open}

binder_close-binder_open_example :
    (7 ≡ current_protocol_version
      → binder_close
          (binder_open (record { opened = some 3; version = some 7; mapped = some 4096 }) unused).1
        ≡ done unused)
    × ((k : Kernel)
        → (binder_open k unused).0 ≡ false
        → (binder_close (binder_open k unused).1 ≡ fault)
          × ((result : ℕ) → binder_become_context_manager result (binder_open k unused).1 ≡ fault)
          × ((threads : ℕ) → binder_set_maxthreads threads (binder_open k unused).1 ≡ fault))
    × ((k : Kernel)
        → k.opened ≡ some 3
        → k.version ≡ some current_protocol_version
        → k.mapped ≡ none
        → (binder_open k unused).1.open_fds ≡ [])
    × ((k : Kernel)
        → k.opened ≡ some 3
        → k.version ≡ some 7
        → 7 ≢ current_protocol_version
        → (binder_open k unused).1.open_fds ≡ 3 ∷ [])
binder_close-binder_open_example = binder_close-binder_open 3 4096 7
