-- ===== src/ServiceManager/Handles.antt =====
-- A write to the handle of one node in `svclist` of frameworks/servicemanager/ServiceManager.cpp.
use zeus_os.Base.{
  ℕ, ◌+◌, ◌≡◌, refl, false, Option, none, some, List, [], ◌∷◌, arith, ◌==◌, if◌then◌else◌, All,
}
use zeus_os.ServiceManager.{SvcInfo, Registry, bytes_eq, set_handle, node_at}
use zeus_os.ServiceManager.Nodes.{
  bytes_eq_iff, Fresh, Distinct, Unnamed, DistinctNames, Unused, IsSized, IsWellFormed, lookup_name,
  handle_in, Fresh-lookup_name,
}

module _ (a h : ℕ) where
  set_handle-IsSized : (l : List SvcInfo) → All IsSized l → All IsSized (set_handle a h l)
  unfolding set_handle
  set_handle-IsSized [] p = tt
  set_handle-IsSized (si ∷ l) p = ground (arith, set_handle-IsSized l p.1)

  set_handle-Fresh : (b : ℕ) (l : List SvcInfo) → Fresh b l → Fresh b (set_handle a h l)
  unfolding set_handle
  set_handle-Fresh b [] p = tt
  set_handle-Fresh b (si ∷ l) p = ground (arith, set_handle-Fresh b l p.1)

  set_handle-Distinct : (l : List SvcInfo) → Distinct l → Distinct (set_handle a h l)
  unfolding set_handle
  set_handle-Distinct [] p = tt
  set_handle-Distinct (si ∷ l) p =
      ground (arith, set_handle-Distinct l p.1, set_handle-Fresh si.address l p.0)

  set_handle-Unnamed : (k : List ℕ) (l : List SvcInfo) → Unnamed k l → Unnamed k (set_handle a h l)
  unfolding set_handle
  set_handle-Unnamed k [] p = tt
  set_handle-Unnamed k (si ∷ l) p = ground (arith, set_handle-Unnamed k l p.1)

  set_handle-DistinctNames : (l : List SvcInfo) → DistinctNames l → DistinctNames (set_handle a h l)
  unfolding set_handle
  set_handle-DistinctNames [] p = tt
  set_handle-DistinctNames (si ∷ l) p =
      ground (arith, set_handle-DistinctNames l p.1, set_handle-Unnamed si.name l p.0)

  set_handle-Unused :
      (r : List (Option ℕ)) (l : List SvcInfo) → Unused r l → Unused r (set_handle a h l)
  set_handle-Unused [] l u = tt
  set_handle-Unused (none ∷ r) l u = set_handle-Unused r l u
  set_handle-Unused (some b ∷ r) l u = (set_handle-Fresh b l u.0, u.1, set_handle-Unused r l u.2)

  pub set_handle-IsWellFormed :
      (r : Registry)
      → IsWellFormed r
      → IsWellFormed (record r { svclist = set_handle a h r.svclist })
  set_handle-IsWellFormed r w = record {
    sized = set_handle-IsSized r.svclist w.sized;
    distinct = set_handle-Distinct r.svclist w.distinct;
    named = set_handle-DistinctNames r.svclist w.named;
    unused = set_handle-Unused r.mallocs r.svclist w.unused;
  }

-- The nodes with a given handle.
abbrev pub holding : ℕ → List SvcInfo → ℕ
holding x [] = 0
holding x (si ∷ l) = (if si.handle == x then 1 else 0) + holding x l

pub holding-set_handle :
    (x h : ℕ) (l : List SvcInfo) (si : SvcInfo)
    → node_at si.address l ≡ some si
    → holding x (set_handle si.address h l) + (if si.handle == x then 1 else 0)
      ≡ holding x l + (if h == x then 1 else 0)
unfolding set_handle node_at
holding-set_handle x h [] si e = cc
holding-set_handle x h (n ∷ l) si e = ground (arith, holding-set_handle x h l si)

-- Writing the handle of the node of a name changes what that name gives, and no other.
pub lookup_name-set_handle :
    (k j : List ℕ) (h : ℕ) (l : List SvcInfo) (si : SvcInfo)
    → Distinct l
    → lookup_name k l ≡ some si
    → handle_in (lookup_name j (set_handle si.address h l))
      ≡ (if bytes_eq k j then h else handle_in (lookup_name j l))
unfolding lookup_name set_handle
lookup_name-set_handle k j h [] si d e = cc
lookup_name-set_handle k j h (x ∷ l) si d e = ground (
  arith,
  lookup_name-set_handle k j h l si d.1,
  bytes_eq_iff k j,
  bytes_eq_iff k x.name,
  bytes_eq_iff j x.name,
  Fresh-lookup_name x.address k l si d.0,
)

Unnamed-node_at :
    (a : ℕ) (k : List ℕ) (l : List SvcInfo) (si : SvcInfo)
    → Unnamed k l
    → node_at a l ≡ some si
    → bytes_eq k si.name ≡ false
unfolding node_at
Unnamed-node_at a k [] si u e = cc
Unnamed-node_at a k (x ∷ l) si u e = ground (arith, u.0, Unnamed-node_at a k l si u.1)

pub node_at-address :
    (a : ℕ) (l : List SvcInfo) (si : SvcInfo) → node_at a l ≡ some si → si.address ≡ a
unfolding node_at
node_at-address a [] si e = cc
node_at-address a (x ∷ l) si e = ground (arith, node_at-address a l si)

-- A node is the node of its own name.
pub lookup_name-node_at :
    (a : ℕ) (l : List SvcInfo) (si : SvcInfo)
    → DistinctNames l
    → node_at a l ≡ some si
    → lookup_name si.name l ≡ some si
unfolding lookup_name node_at
lookup_name-node_at a [] si d e = cc
lookup_name-node_at a (x ∷ l) si d e = ground (
  arith,
  lookup_name-node_at a l si d.1,
  Unnamed-node_at a x.name l si d.0,
  bytes_eq_iff si.name x.name,
  bytes_eq_iff x.name si.name,
)

-- The node is still there after the write, with the new handle.
pub node_at-set_handle :
    (a g : ℕ) (l : List SvcInfo) (si : SvcInfo)
    → node_at a l ≡ some si
    → node_at a (set_handle a g l) ≡ some (record si { handle = g })
unfolding node_at set_handle
node_at-set_handle a g [] si e = cc
node_at-set_handle a g (x ∷ l) si e = ground (arith, node_at-set_handle a g l si)

pub set_handle_twice :
    (a g h : ℕ) (l : List SvcInfo) → set_handle a h (set_handle a g l) ≡ set_handle a h l
unfolding set_handle
set_handle_twice a g h [] = refl
set_handle_twice a g h (x ∷ l) = ground (arith, set_handle_twice a g h l)
