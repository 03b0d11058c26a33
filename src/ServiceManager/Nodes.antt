-- ===== src/ServiceManager/Nodes.antt =====
-- The list `svclist` of frameworks/servicemanager/ServiceManager.cpp: its shape, and what writing
-- a handle into one node does to it.
use zeus_os.Base.{
  ℕ, zero, suc, ◌+◌, ◌≤◌, ◌≡◌, ◌≢◌, ◌↔◌, refl, ap, true, false, Option, none, some, List, [], ◌∷◌,
  arith, if◌then◌else◌, length, All,
}
use zeus_os.Memory.{Mem, load}
use zeus_os.ServiceManager.{SvcInfo, Registry, bytes_eq, find_svc, node_at}

pub bytes_eq_iff : (xs ys : List ℕ) → (bytes_eq xs ys ≡ true) ↔ (xs ≡ ys)
unfolding bytes_eq
bytes_eq_iff [] [] = (λ _. refl, λ _. refl)
bytes_eq_iff [] (y ∷ ys) = (λ e. cc, λ e. cc)
bytes_eq_iff (x ∷ xs) [] = (λ e. cc, λ e. cc)
bytes_eq_iff (x ∷ xs) (y ∷ ys) =
    (λ e. ground (arith, bytes_eq_iff xs ys), λ e. ground (arith, bytes_eq_iff xs ys))

-- No node lies at the address.
abbrev pub Fresh : ℕ → List SvcInfo → Type 0
Fresh a = All (λ si. si.address ≢ a)

-- The nodes lie at different addresses, and have different names.
abbrev pub Distinct : List SvcInfo → Type 0
Distinct [] = Unit
Distinct (si ∷ l) = Fresh si.address l × Distinct l

abbrev pub Unnamed : List ℕ → List SvcInfo → Type 0
Unnamed k = All (λ si. bytes_eq k si.name ≡ false)

abbrev pub DistinctNames : List SvcInfo → Type 0
DistinctNames [] = Unit
DistinctNames (si ∷ l) = Unnamed si.name l × DistinctNames l

-- malloc hands out no address of a live node, and none twice.
abbrev pub Missing : ℕ → List (Option ℕ) → Type 0
Missing a [] = Unit
Missing a (none ∷ r) = Missing a r
Missing a (some b ∷ r) = (a ≢ b) × Missing a r

abbrev pub Unused : List (Option ℕ) → List SvcInfo → Type 0
Unused [] l = Unit
Unused (none ∷ r) l = Unused r l
Unused (some a ∷ r) l = Fresh a l × Missing a r × Unused r l

abbrev pub IsSized : SvcInfo → Type 0
IsSized si = (si.len ≡ length si.name) × (1 ≤ si.len) × (si.len ≤ 127)

pub record IsWellFormed (r : Registry) : Type 0 where
  pub sized : All IsSized r.svclist
  pub distinct : Distinct r.svclist
  pub named : DistinctNames r.svclist
  pub unused : Unused r.mallocs r.svclist

-- The registry as a map from names: the node of a name, and its handle, 0 for none.
unfoldable pub lookup_name : List ℕ → List SvcInfo → Option SvcInfo
lookup_name k [] = none
lookup_name k (si ∷ l) = if bytes_eq k si.name then some si else lookup_name k l

abbrev pub handle_in : Option SvcInfo → ℕ
handle_in none = 0
handle_in (some si) = si.handle

pub length-load : (m : Mem) (p n : ℕ) → length (load m p n) ≡ n
unfolding load
length-load m p zero = refl
length-load m p (suc n) = ap suc (length-load m (p + 1) n)

-- In a well-formed list the search by length and bytes is the search by name.
pub find_svc-eq-lookup_name :
    (m : Mem) (name len : ℕ) (l : List SvcInfo)
    → All IsSized l
    → find_svc m name len l ≡ lookup_name (load m name len) l
unfolding find_svc lookup_name
find_svc-eq-lookup_name m name len [] h = refl
find_svc-eq-lookup_name m name len (si ∷ l) h = ground (
  arith,
  find_svc-eq-lookup_name m name len l h.1,
  bytes_eq_iff (load m name len) si.name,
  length-load m name len,
  h.0.0,
)

pub Fresh-lookup_name :
    (a : ℕ) (k : List ℕ) (l : List SvcInfo) (si : SvcInfo)
    → Fresh a l
    → lookup_name k l ≡ some si
    → si.address ≢ a
unfolding lookup_name
Fresh-lookup_name a k [] si f e = cc
Fresh-lookup_name a k (x ∷ l) si f e = λ q. ground (arith, f.0, Fresh-lookup_name a k l si f.1)

pub node_at-lookup_name :
    (k : List ℕ) (l : List SvcInfo) (si : SvcInfo)
    → Distinct l
    → lookup_name k l ≡ some si
    → node_at si.address l ≡ some si
unfolding lookup_name node_at
node_at-lookup_name k [] si d e = cc
node_at-lookup_name k (x ∷ l) si d e =
    ground (arith, node_at-lookup_name k l si d.1, Fresh-lookup_name x.address k l si d.0)

pub lookup_name-name :
    (k : List ℕ) (l : List SvcInfo) (si : SvcInfo)
    → lookup_name k l ≡ some si
    → bytes_eq k si.name ≡ true
unfolding lookup_name
lookup_name-name k [] si e = cc
lookup_name-name k (x ∷ l) si e = ground (arith, lookup_name-name k l si)
