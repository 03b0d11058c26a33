-- ===== src/ServiceManager/Balance.antt =====
-- The registry of frameworks/servicemanager/ServiceManager.cpp against the references that it has
-- asked the driver for.
use zeus_os.Base.{
  ℕ, ◌+◌, ◌^◌, ◌<◌, ◌≡◌, ◌≢◌, inl, inr, Bool-cases, Option, some, List, [], ◌∷◌, ◌++◌, arith, ◌==◌,
}
use zeus_os.Binder.{
  acquired, released, acquired-append, released-append, acquire, release, request_death, Process,
  Returns, binder_acquire, binder_link_to_death,
}
use zeus_os.ServiceManager.{
  SvcInfo, Registry, BinderRef, service_manager_binder_death, node_at, add_service,
}
use zeus_os.ServiceManager.Nodes.{IsWellFormed, node_at-lookup_name}
use zeus_os.ServiceManager.Handles.{holding, holding-set_handle, node_at-set_handle}
use zeus_os.ServiceManager.Registration.{refreshed, extended, add_service_cases}

-- The references held on every handle are as many as the nodes that have it.
abbrev pub IsBalanced : Process Registry → Type 0
IsBalanced p = (h : ℕ) → h ≢ 0 → acquired h p.sent ≡ released h p.sent + holding h p.service.svclist

pub death-IsBalanced :
    (si : SvcInfo) (p : Process Registry)
    → node_at si.address p.service.svclist ≡ some si
    → IsBalanced p
    → IsBalanced (service_manager_binder_death si p)
unfolding service_manager_binder_death
death-IsBalanced si p e b h z = ground (
  arith,
  b h z,
  holding-set_handle h 0 p.service.svclist si e,
  acquired-append h p.sent (release si.handle ∷ []),
  released-append h p.sent (release si.handle ∷ []),
)

-- The node of a service that died has no handle.
node_at-death :
    (si : SvcInfo) (p : Process Registry)
    → node_at si.address p.service.svclist ≡ some si
    → node_at si.address (service_manager_binder_death si p).service.svclist
      ≡ some (record si { handle = 0 })
unfolding service_manager_binder_death
node_at-death si p e = elim (Bool-cases (si.handle == 0)) [
  | inl z ↦ rw z (ground arith)
  | inr n ↦ rw n (node_at-set_handle si.address 0 p.service.svclist si e)
]

-- A write of a handle to a node that had none, with the acquire for it.
pub refreshed-IsBalanced :
    (si : SvcInfo) (r : BinderRef) (p : Process Registry)
    → node_at si.address p.service.svclist ≡ some si
    → IsBalanced p
    → IsBalanced (refreshed si r p)
unfolding binder_acquire binder_link_to_death
refreshed-IsBalanced si r p e b h z =
    let q = service_manager_binder_death si p in
    ground (
      arith,
      death-IsBalanced si p e b h z,
      holding-set_handle h r.handle q.service.svclist (record si { handle = 0 })
          (node_at-death si p e),
      acquired-append h q.sent (acquire r.handle ∷ []),
      released-append h q.sent (acquire r.handle ∷ []),
      acquired-append h (q.sent ++ acquire r.handle ∷ [])
          (request_death r.handle (si.address + 8) ∷ []),
      released-append h (q.sent ++ acquire r.handle ∷ [])
          (request_death r.handle (si.address + 8) ∷ []),
    )

pub extended-IsBalanced :
    (a : ℕ) (rest : List (Option ℕ)) (name : ℕ) (r : BinderRef) (p : Process Registry)
    → IsBalanced p
    → IsBalanced (extended a rest name r p)
unfolding binder_acquire binder_link_to_death
extended-IsBalanced a rest name r p b h z = ground (
  arith,
  b h z,
  acquired-append h p.sent (acquire r.handle ∷ []),
  released-append h p.sent (acquire r.handle ∷ []),
  acquired-append h (p.sent ++ acquire r.handle ∷ []) (request_death r.handle (a + 8) ∷ []),
  released-append h (p.sent ++ acquire r.handle ∷ []) (request_death r.handle (a + 8) ∷ []),
)

-- A registration with a length below 2 ^ 31 returns, on whatever branch, and afterwards the
-- references held on every handle are again as many as the nodes that have it: the reference of an
-- overridden registration is given up, and the new one is taken once.
pub add_service-IsBalanced :
    (name : ℕ) (r : BinderRef) (p : Process Registry)
    → r.len < 2 ^ 31
    → IsWellFormed p.service
    → IsBalanced p
    → Returns (add_service name r p) (λ x. IsBalanced x.1)
add_service-IsBalanced name r p short w b =
    add_service_cases (λ o. Returns o (λ x. IsBalanced x.1)) name r p (omega arith) w (λ _. b)
      (λ rest _. b) (λ long. absurd (omega arith))
      (λ si e _. refreshed-IsBalanced si r p (node_at-lookup_name _ _ si w.distinct e) b)
      (λ a rest e q _ _ _. extended-IsBalanced a rest name r p b)
