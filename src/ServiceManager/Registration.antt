-- ===== src/ServiceManager/Registration.antt =====
-- The branches of addService in frameworks/servicemanager/ServiceManager.cpp.
use zeus_os.Base.{
  ℕ, ◌^◌, ◌≤◌, ◌<◌, ◌≡◌, ◌≢◌, refl, ◌⊎◌, inl, inr, true, false, Bool-cases, Option-cases, Option,
  none, some, List, [], ◌∷◌, ◌||◌, arith, ◌==◌,
}
use zeus_os.Memory.{u32_mod, int_lt, load}
use zeus_os.Binder.{Outcome, done, fault, Process}
use zeus_os.ServiceManager.{
  SvcInfo, Registry, BinderRef, service_manager_binder_death, write_handle, watch, minus_one,
  new_service, stays_in_name, add_service,
}
use zeus_os.ServiceManager.Nodes.{IsWellFormed, lookup_name, find_svc-eq-lookup_name}

-- The node that a registration makes.
abbrev pub new_node : ℕ → ℕ → BinderRef → Process Registry → SvcInfo
new_node a name r p = record {
  address = a;
  handle = r.handle;
  allow_isolated = r.allow_isolated;
  len = r.len;
  name = load p.mem name r.len;
}

abbrev pub refreshed : SvcInfo → BinderRef → Process Registry → Process Registry
refreshed si r p =
    watch r.handle si.address (write_handle si.address r.handle (service_manager_binder_death si p))

abbrev pub extended : ℕ → List (Option ℕ) → ℕ → BinderRef → Process Registry → Process Registry
extended a rest name r p = watch r.handle a (record p {
  service = record { svclist = new_node a name r p ∷ p.service.svclist; mallocs = rest };
})

stays_in_name_short :
    (len : ℕ) → len < u32_mod → int_lt 127 len ≡ false → stays_in_name len ≡ true → len ≤ 127
unfolding stays_in_name
stays_in_name_short len u h s = ground arith

stays_in_name_long :
    (len : ℕ) → len < u32_mod → int_lt 127 len ≡ false → stays_in_name len ≡ false → 2 ^ 31 ≤ len
unfolding stays_in_name
stays_in_name_long len u h s = ground arith

-- Every way through addService, with what is known on it.
module _ {ℓ} (P : Outcome (ℕ × Process Registry) → Type ℓ) (name : ℕ) (r : BinderRef)
    (p : Process Registry) (in_u32 : r.len < u32_mod) (sized : IsWellFormed p.service)
    (refused : (r.handle ≡ 0)
        ⊎ ((r.len ≡ 0) ⊎ (((127 < r.len) × (r.len < 2 ^ 31)) ⊎ (p.service.mallocs ≡ [])))
      → P (done (minus_one, p)))
    (no_memory : (rest : List (Option ℕ))
      → p.service.mallocs ≡ none ∷ rest
      → P (done (minus_one, record p { service = record (p.service) { mallocs = rest } })))
    (overrun : 2 ^ 31 ≤ r.len → P fault)
    (old : (si : SvcInfo)
      → lookup_name (load p.mem name r.len) p.service.svclist ≡ some si
      → r.handle ≢ 0
      → P (done (0, refreshed si r p)))
    (new : (a : ℕ) (rest : List (Option ℕ))
      → lookup_name (load p.mem name r.len) p.service.svclist ≡ none
      → p.service.mallocs ≡ some a ∷ rest
      → r.handle ≢ 0
      → 1 ≤ r.len
      → r.len ≤ 127
      → P (done (0, extended a rest name r p))) where
  new_service_cases :
      lookup_name (load p.mem name r.len) p.service.svclist ≡ none
      → r.handle ≢ 0
      → 1 ≤ r.len
      → int_lt 127 r.len ≡ false
      → (ms : List (Option ℕ)) → p.service.mallocs ≡ ms
      → P (new_service name r ms p)
  unfolding new_service
  new_service_cases e h lo hi [] q = refused (inr (inr (inr q)))
  new_service_cases e h lo hi (none ∷ rest) q = no_memory rest q
  new_service_cases e h lo hi (some a ∷ rest) q = elim (Bool-cases (stays_in_name r.len)) [
    | inl short ↦ rw short (new a rest e q h lo (stays_in_name_short r.len in_u32 hi short))
    | inr long ↦ rw long (overrun (stays_in_name_long r.len in_u32 hi long))
  ]

  pub add_service_cases : P (add_service name r p)
  unfolding add_service
  add_service_cases = elim (Bool-cases (r.handle == 0 || r.len == 0 || int_lt 127 r.len)) [
    | inl bad ↦ rw bad (refused (ground arith))
    | inr good ↦
        rw (good, find_svc-eq-lookup_name p.mem name r.len p.service.svclist sized.sized)
          (elim (Option-cases (lookup_name (load p.mem name r.len) p.service.svclist)) [
            | inl e ↦ rw e (
                new_service_cases e (λ z. ground arith) (ground arith) (ground arith)
                  p.service.mallocs refl)
            | inr (si, e) ↦ rw e (old si e (λ z. ground arith))
          ])
  ]
