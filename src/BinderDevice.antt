-- ===== src/BinderDevice.antt =====
-- The device behind the library: binderOpen, binderClose, binderBecomeContextManager,
-- binderSetMaxthreads and setBnBinder of system/binder/Binder.cpp.
pub mod Lifetime
pub mod Examples
use zeus_os.Base.{
  ℕ, Bool, true, false, Option, none, some, List, [], ◌∷◌, ◌++◌, ◌==◌, if◌then◌else◌,
}
use zeus_os.Binder.{Outcome, done, fault}
use zeus_os.InputReader.{without}

-- What open, the version ioctl and mmap return; `none` is a failure.
pub record Kernel : Type 0 where
  pub opened : Option ℕ
  pub version : Option ℕ
  pub mapped : Option ℕ

-- BINDER_CURRENT_PROTOCOL_VERSION of the 32-bit target
abbrev pub current_protocol_version : ℕ
current_protocol_version = 7

-- 128 * 1024
abbrev pub mapsize : ℕ
mapsize = 131072

-- struct BinderState
pub record BinderState : Type 0 where
  pub fd : ℕ
  pub mapping : ℕ

-- The descriptors that are open and the mappings, by their address; what mBinderState points to,
-- `none` for an object that was deleted; whether mBninder is set.
pub record Library : Type 0 where
  pub open_fds : List ℕ
  pub mappings : List ℕ
  pub state : Option BinderState
  pub has_object : Bool

-- The labels `fail_map` and `fail_open`: the member goes on pointing to what was deleted.
abbrev fail_open : Library → Library
fail_open l = record l { state = none }

abbrev fail_map : ℕ → Library → Library
fail_map fd l = fail_open (record l { open_fds = without fd l.open_fds })

-- binderOpen behind open.
unfoldable pub set_up : Kernel → ℕ → Library → Bool × Library
set_up k fd l = elim k.version [
  | none ↦ (false, fail_open l)
  | some v ↦
      if v == current_protocol_version
      then (elim k.mapped [
        | none ↦ (false, fail_map fd l)
        | some a ↦ (
          true,
          record l {
            mappings = l.mappings ++ a ∷ [];
            state = some (record { fd = fd; mapping = a });
          },
        )
      ])
      else (false, fail_open l)
]

-- Whether the result is not NULL, with the library.
unfoldable pub binder_open : Kernel → Library → Bool × Library
binder_open k l = elim k.opened [
  | none ↦ (false, fail_open l)
  | some fd ↦ set_up k fd (record l { open_fds = l.open_fds ++ fd ∷ [] })
]

-- binderClose, of the destructor.
unfoldable pub binder_close : Library → Outcome Library
binder_close l = elim l.state [
  | none ↦ fault
  | some s ↦ done (record l {
    open_fds = without s.fd l.open_fds;
    mappings = without s.mapping l.mappings;
    state = none;
  })
]

-- The ioctl calls on the open device; `result` is what the driver returns.
unfoldable pub binder_become_context_manager : ℕ → Library → Outcome ℕ
binder_become_context_manager result l = elim l.state [ none ↦ fault | some s ↦ done result ]

unfoldable pub binder_set_maxthreads : ℕ → Library → Outcome Library
binder_set_maxthreads threads l = elim l.state [ none ↦ fault | some s ↦ done l ]

unfoldable pub set_bn_binder : Library → Library
set_bn_binder l = record l { has_object = true }
