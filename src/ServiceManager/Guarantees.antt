-- ===== src/ServiceManager/Guarantees.antt =====
-- What addService, getService and the death of a service do to the registry of
-- frameworks/servicemanager/ServiceManager.cpp, seen as a map from names to handles.
use zeus_os.Base.{
  ℕ, ◌+◌, ◌-◌, ◌^◌, ◌≤◌, ◌<◌, ◌≡◌, ◌≢◌, refl, sym, subst, inl, inr, Bool-cases, Option-cases,
  Option, none, some, List, [], ◌∷◌, arith, ltb-false, ◌==◌, if◌then◌else◌, length, All,
}
use zeus_os.Memory.{load}
use zeus_os.Binder.{done, Process, Returns, binder_acquire, binder_link_to_death}
use zeus_os.ServiceManager.{
  SvcInfo, Registry, BinderRef, bytes_eq, service_manager_binder_death, node_at, death_at,
  add_service, get_service, strlen, map_size,
}
use zeus_os.ServiceManager.Nodes.{
  Unnamed, Missing, Unused, IsSized, IsWellFormed, bytes_eq_iff, lookup_name, handle_in,
  find_svc-eq-lookup_name, length-load,
}
use zeus_os.ServiceManager.Handles.{
  set_handle-IsWellFormed, lookup_name-set_handle, lookup_name-node_at, set_handle_twice,
}
use zeus_os.ServiceManager.Registration.{new_node, refreshed, extended, add_service_cases}
use zeus_os.ServiceManager.Balance.{IsBalanced, death-IsBalanced}

-- What getService gives for a name.
abbrev pub handle_of : List ℕ → Process Registry → ℕ
handle_of k p = handle_in (lookup_name k p.service.svclist)

pub death-IsWellFormed :
    (si : SvcInfo) (p : Process Registry)
    → IsWellFormed p.service
    → IsWellFormed (service_manager_binder_death si p).service
unfolding service_manager_binder_death
death-IsWellFormed si p w = elim (Bool-cases (si.handle == 0)) [
  | inl z ↦ rw z w
  | inr n ↦ rw n (set_handle-IsWellFormed si.address 0 p.service w)
]

Unnamed-of_none : (k : List ℕ) (l : List SvcInfo) → lookup_name k l ≡ none → Unnamed k l
unfolding lookup_name
Unnamed-of_none k [] e = tt
Unnamed-of_none k (si ∷ l) e = ground (arith, Unnamed-of_none k l)

Unused-cons :
    (n : SvcInfo) (ms : List (Option ℕ)) (l : List SvcInfo)
    → Missing n.address ms
    → Unused ms l
    → Unused ms (n ∷ l)
Unused-cons n [] l m u = tt
Unused-cons n (none ∷ ms) l m u = Unused-cons n ms l m u
Unused-cons n (some b ∷ ms) l m u = ((m.0, u.0), u.1, Unused-cons n ms l m.1 u.2)

pub extended-IsWellFormed :
    (a : ℕ) (rest : List (Option ℕ)) (name : ℕ) (r : BinderRef) (p : Process Registry)
    → IsWellFormed p.service
    → lookup_name (load p.mem name r.len) p.service.svclist ≡ none
    → Unused (some a ∷ rest) p.service.svclist
    → 1 ≤ r.len
    → r.len ≤ 127
    → IsWellFormed (record { svclist = new_node a name r p ∷ p.service.svclist; mallocs = rest })
extended-IsWellFormed a rest name r p w e u lo hi = record {
  sized = ((sym (length-load p.mem name r.len), lo, hi), w.sized);
  distinct = (u.0, w.distinct);
  named = (Unnamed-of_none _ p.service.svclist e, w.named);
  unused = Unused-cons (new_node a name r p) rest p.service.svclist u.1 u.2;
}

pub refreshed-IsWellFormed :
    (si : SvcInfo) (r : BinderRef) (p : Process Registry)
    → IsWellFormed p.service
    → IsWellFormed (refreshed si r p).service
unfolding binder_acquire binder_link_to_death
refreshed-IsWellFormed si r p w =
    set_handle-IsWellFormed si.address r.handle _ (death-IsWellFormed si p w)

-- A registration keeps the list well-formed on every branch: names of 1 to 127 bytes, no name and
-- no node twice, and no node where malloc may still put one. With a length below 2 ^ 31 it returns.
pub add_service-IsWellFormed :
    (name : ℕ) (r : BinderRef) (p : Process Registry)
    → r.len < 2 ^ 31
    → IsWellFormed p.service
    → Returns (add_service name r p) (λ x. IsWellFormed x.1.service)
unfolding binder_acquire binder_link_to_death
add_service-IsWellFormed name r p short w =
    add_service_cases (λ o. Returns o (λ x. IsWellFormed x.1.service)) name r p (omega arith) w
      (λ _. w)
      (λ rest q. record {
        sized = w.sized;
        distinct = w.distinct;
        named = w.named;
        unused = subst (λ ms. Unused ms p.service.svclist) q w.unused;
      })
      (λ long. absurd (omega arith)) (λ si e _. refreshed-IsWellFormed si r p w)
      (λ a rest e q _ lo hi.
        extended-IsWellFormed a rest name r p w e
          (subst (λ ms. Unused ms p.service.svclist) q w.unused) lo hi)

-- A registration that is not accepted has sent nothing and left every node as it was.
pub add_service_refused :
    (name : ℕ) (r : BinderRef) (p : Process Registry)
    → r.len < 2 ^ 31
    → IsWellFormed p.service
    → Returns
        (add_service name r p)
        (λ x. x.0 ≢ 0 → (x.1.sent ≡ p.sent) × (x.1.service.svclist ≡ p.service.svclist))
add_service_refused name r p short w =
    add_service_cases
      (λ o.
        Returns o (λ x. x.0 ≢ 0 → (x.1.sent ≡ p.sent) × (x.1.service.svclist ≡ p.service.svclist)))
      name r p (omega arith) w (λ _ _. (refl, refl)) (λ rest q _. (refl, refl))
      (λ long. absurd (omega arith)) (λ si e _ z. absurd (z refl))
      (λ a rest e q _ _ _ z. absurd (z refl))

-- The handle of one name is replaced, whatever it was before.
handle_of-refreshed :
    (si : SvcInfo) (k j : List ℕ) (r : BinderRef) (p : Process Registry)
    → IsWellFormed p.service
    → lookup_name k p.service.svclist ≡ some si
    → handle_of j (refreshed si r p) ≡ (if bytes_eq k j then r.handle else handle_of j p)
unfolding service_manager_binder_death binder_acquire binder_link_to_death
handle_of-refreshed si k j r p w e = elim (Bool-cases (si.handle == 0)) [
  | inl z ↦ rw z (lookup_name-set_handle k j r.handle p.service.svclist si w.distinct e)
  | inr n ↦
      rw (n, set_handle_twice si.address 0 r.handle p.service.svclist)
        (lookup_name-set_handle k j r.handle p.service.svclist si w.distinct e)
]

handle_of-extended :
    (a : ℕ) (rest : List (Option ℕ)) (name : ℕ) (j : List ℕ) (r : BinderRef) (p : Process Registry)
    → handle_of j (extended a rest name r p)
      ≡ (if bytes_eq (load p.mem name r.len) j then r.handle else handle_of j p)
unfolding lookup_name binder_acquire binder_link_to_death
handle_of-extended a rest name j r p =
    ground (arith, bytes_eq_iff (load p.mem name r.len) j, bytes_eq_iff j (load p.mem name r.len))

handle_of-death :
    (si : SvcInfo) (j : List ℕ) (p : Process Registry)
    → IsWellFormed p.service
    → node_at si.address p.service.svclist ≡ some si
    → handle_of j (service_manager_binder_death si p)
      ≡ (if bytes_eq si.name j then 0 else handle_of j p)
unfolding service_manager_binder_death
handle_of-death si j p w e =
    let named = lookup_name-node_at si.address p.service.svclist si w.named e in
    elim (Bool-cases (si.handle == 0)) [
      | inl z ↦ rw z (ground (arith, named, bytes_eq_iff si.name j))
      | inr n ↦ rw n (lookup_name-set_handle si.name j 0 p.service.svclist si w.distinct named)
    ]

add_sub : (a b : ℕ) → a + b - b ≡ a
add_sub a b = omega arith

-- A registered name has at most 127 bytes.
lookup_name-short :
    (k : List ℕ) (si : SvcInfo) (l : List SvcInfo)
    → All IsSized l
    → lookup_name k l ≡ some si
    → length k ≤ 127
unfolding lookup_name
lookup_name-short k si [] s e = cc
lookup_name-short k si (x ∷ l) s e =
    ground (arith, lookup_name-short k si l s.1, bytes_eq_iff k x.name, s.0)

-- What an accepted registration does: the name has the handle, and no other name is touched.
abbrev pub Registers : ℕ → BinderRef → Process Registry → ℕ × Process Registry → Type 0
Registers name r p x =
    (x.0 ≡ 0)
    × ((j : List ℕ)
        → handle_of j x.1
          ≡ (if bytes_eq (load p.mem name r.len) j then r.handle else handle_of j p))

-- With a handle, a name of 1 to 127 bytes and memory at hand, addService succeeds: afterwards the
-- name has that handle, also where it was registered before, and every other name has its own.
pub add_service-Registers :
    (name a : ℕ) (rest : List (Option ℕ)) (r : BinderRef) (p : Process Registry)
    → IsWellFormed p.service
    → r.handle ≢ 0
    → 1 ≤ r.len
    → r.len ≤ 127
    → p.service.mallocs ≡ some a ∷ rest
    → Returns (add_service name r p) (Registers name r p)
add_service-Registers name a rest r p w h lo hi memory =
    add_service_cases (λ o. Returns o (Registers name r p)) name r p (omega arith) w
      (λ bad. absurd (ground arith)) (λ rest' q. cc) (λ long. absurd (omega arith))
      (λ si e _. (refl, λ j. handle_of-refreshed si _ j r p w e))
      (λ b rest' e q _ _ _. (refl, λ j. handle_of-extended b rest' name j r p))

-- The death of the service of a node ends without undefined behaviour: its name has no handle
-- then, every other name has its own, the list stays well-formed and the references balanced.
pub death_at-Guarantees :
    (si : SvcInfo) (p : Process Registry)
    → node_at si.address p.service.svclist ≡ some si
    → IsWellFormed p.service
    → IsBalanced p
    → Returns (death_at (si.address + 8) p) (λ q.
      IsWellFormed q.service
      × IsBalanced q
      × ((j : List ℕ) → handle_of j q ≡ (if bytes_eq si.name j then 0 else handle_of j p)))
unfolding death_at
death_at-Guarantees si p e w b =
    rw (ltb-false (si.address + 8) 8 (omega arith), add_sub (si.address) 8, e)
      (death-IsWellFormed si p w, death-IsBalanced si p e b, λ j. handle_of-death si j p w e)

-- getService gives the handle of the name that the text at the address spells, whichever branch
-- the search takes.
pub get_service-handle_of :
    (name n : ℕ) (p : Process Registry)
    → strlen map_size p.mem name ≡ some n
    → IsWellFormed p.service
    → get_service name p ≡ done (handle_of (load p.mem name n) p)
unfolding get_service
get_service-handle_of name n p e w =
    let search = find_svc-eq-lookup_name p.mem name n p.service.svclist w.sized in
    elim (Option-cases (lookup_name (load p.mem name n) p.service.svclist)) [
      | inl missing ↦ rw (e, get_service, search, missing) refl
      | inr (si, found) ↦ rw (e, get_service, search, found) refl
    ]
