-- ===== src/ServiceManager.antt =====
-- The registry of services: frameworks/servicemanager/ServiceManager.cpp (BnServiceManager and the
-- list `svclist`), include/frameworks/ServiceManager.h. The children hold the proofs.
pub mod Nodes
pub mod Handles
pub mod Registration
pub mod Balance
pub mod Guarantees
pub mod Requests
pub mod Bytes
pub mod Texts
pub mod Serving
pub mod Directory
pub mod Finding
pub mod Clients
pub mod Lookups
pub mod Examples
use zeus_os.Base.{
  ℕ, zero, suc, ◌+◌, ◌-◌, Bool, true, false, ◌&&◌, ◌||◌, not, Option, none, some, List, [], ◌∷◌,
  ltb, leb, ◌==◌, ◌*◌, ◌%◌, ◌^◌, if◌then◌else◌,
}
use zeus_os.Memory.{Mem, int_lt, load}
use zeus_os.Parcel.{Parcel, BinderIo, Txn, get_uint32, get_string8, get_ref, put_uint32, put_ref}
use zeus_os.Binder.{
  Outcome, done, fault, ◌>>=◌, Process, Answer, binder_acquire, binder_release,
  binder_link_to_death,
}

-- struct svcinfo at its address. `name` is the text in front of the terminator that addService
-- writes, `next` the rest of the list; `death` holds the address once more.
pub record SvcInfo : Type 0 where
  pub address : ℕ
  pub handle : ℕ
  pub allow_isolated : ℕ
  pub len : ℕ
  pub name : List ℕ

-- `svclist`, newest first, and what the calls of malloc to come return.
pub record Registry : Type 0 where
  pub svclist : List SvcInfo
  pub mallocs : List (Option ℕ)

-- struct BinderRef
pub record BinderRef : Type 0 where
  pub len : ℕ
  pub sender_euid : ℕ
  pub sender_pid : ℕ
  pub allow_isolated : ℕ
  pub handle : ℕ

-- !memcmp
unfoldable pub bytes_eq : List ℕ → List ℕ → Bool
bytes_eq [] [] = true
bytes_eq (x ∷ xs) (y ∷ ys) = x == y && bytes_eq xs ys
bytes_eq _ _ = false

unfoldable pub find_svc : Mem → ℕ → ℕ → List SvcInfo → Option SvcInfo
find_svc m name len [] = none
find_svc m name len (si ∷ rest) =
    if len == si.len && bytes_eq (load m name len) si.name
    then some si
    else find_svc m name len rest

-- strlen, over the bytes that can be mapped; `none` if it runs beyond them.
unfoldable pub strlen : ℕ → Mem → ℕ → Option ℕ
strlen zero m p = none
strlen (suc n) m p = elim (m p == 0) [
  | true ↦ some 0
  | false ↦ elim (strlen n m (p + 1)) [ none ↦ none | some k ↦ some (suc k) ]
]

-- The driver maps 128 * 1024 bytes for the messages of a process (Binder::binderOpen).
abbrev pub map_size : ℕ
map_size = 131072

-- The write through a pointer to a node.
unfoldable pub set_handle : ℕ → ℕ → List SvcInfo → List SvcInfo
set_handle a h [] = []
set_handle a h (si ∷ rest) =
    if si.address == a then record si { handle = h } ∷ rest else si ∷ set_handle a h rest

-- The node at an address.
unfoldable pub node_at : ℕ → List SvcInfo → Option SvcInfo
node_at a [] = none
node_at a (si ∷ rest) = if si.address == a then some si else node_at a rest

abbrev write_handle : ℕ → ℕ → Process Registry → Process Registry
write_handle a h p = record p {
  service = record (p.service) { svclist = set_handle a h p.service.svclist };
}

-- serviceManagerbinderDeath; the node stays in the list for a later registration.
unfoldable pub service_manager_binder_death : SvcInfo → Process Registry → Process Registry
unfolding binder_release
service_manager_binder_death si p =
    if si.handle == 0 then p else write_handle si.address 0 (binder_release si.handle p)

-- BR_DEAD_BINDER calls it through the BinderDeath, which lies 8 bytes into its node.
unfoldable pub death_at : ℕ → Process Registry → Outcome (Process Registry)
death_at death p = if ltb death 8 then fault else elim (node_at (death - 8) p.service.svclist) [
  | none ↦ fault
  | some si ↦ done (service_manager_binder_death si p)
]

unfoldable pub get_service : ℕ → Process Registry → Outcome ℕ
get_service name p = elim (strlen map_size p.mem name) [
  | none ↦ fault
  | some len ↦ elim (find_svc p.mem name len p.service.svclist) [
    | none ↦ done 0
    | some si ↦ done si.handle
  ]
]

-- -1 as an unsigned int.
abbrev pub minus_one : ℕ
minus_one = 0xffffffff

-- The strong reference and the death notification that addService ends with; `&si->death`.
abbrev watch : ℕ → ℕ → Process Registry → Process Registry
watch handle address p = binder_link_to_death handle (address + 8) (binder_acquire handle p)

-- sizeof(*si), in front of `name`.
abbrev pub node_size : ℕ
node_size = 24

-- What malloc is asked for, with two bytes for each character, and how many bytes memcpy copies to
-- `name`; `len` is an int.
abbrev pub allocated : ℕ → ℕ
allocated len = (node_size + (len + 1) % 2 ^ 32 * 2) % 2 ^ 32

abbrev pub copied : ℕ → ℕ
copied len = (len + 1) % 2 ^ 32

-- Whether memcpy and `name[len] = 0` stay in `name`: one in front of it, as for a `len` of -1, is
-- undefined too, though it falls into the same allocation.
unfoldable pub stays_in_name : ℕ → Bool
stays_in_name len = leb (node_size + copied len) (allocated len) && not (int_lt len 0)

-- The branch that allocates.
unfoldable pub new_service :
    ℕ → BinderRef → List (Option ℕ) → Process Registry → Outcome (ℕ × Process Registry)
unfolding binder_acquire binder_link_to_death
new_service name r [] p = done (minus_one, p)
new_service name r (none ∷ rest) p =
    done (minus_one, record p { service = record (p.service) { mallocs = rest } })
new_service name r (some a ∷ rest) p =
    if stays_in_name r.len
    then (let si : SvcInfo = record {
      address = a;
      handle = r.handle;
      allow_isolated = r.allow_isolated;
      len = r.len;
      name = load p.mem name r.len;
    } in
        done (
          0,
          watch r.handle a
              (record p { service = record { svclist = si ∷ p.service.svclist; mallocs = rest } }),
        ))
    else fault

unfoldable pub add_service : ℕ → BinderRef → Process Registry → Outcome (ℕ × Process Registry)
unfolding binder_acquire binder_link_to_death
add_service name r p =
    if r.handle == 0 || r.len == 0 || int_lt 127 r.len
    then done (minus_one, p)
    else elim (find_svc p.mem name r.len p.service.svclist) [
      | none ↦ new_service name r p.service.mallocs p
      | some si ↦ done (
        0,
        watch r.handle si.address
            (write_handle si.address r.handle (service_manager_binder_death si p)),
      )
    ]

-- A `put` into the reply parcel, in the memory of the process.
abbrev reply_with : (Parcel → Parcel) → ℕ → BinderIo → Process Registry → Outcome (Answer Registry)
reply_with put status r p =
    let q = put (record { mem = p.mem; bio = r }) in
    done (record { status = status; reply_bio = q.bio; process = record p { mem = q.mem } })

abbrev refuse : BinderIo → Process Registry → Outcome (Answer Registry)
refuse r p = done (record { status = minus_one; reply_bio = r; process = p })

-- `if (!handle) break;`, and the tail of onTransact.
unfoldable pub answer_get : ℕ → BinderIo → Process Registry → Outcome (Answer Registry)
answer_get handle r p =
    if handle == 0 then reply_with (put_uint32 0) 0 r p else reply_with (put_ref handle) 0 r p

unfoldable pub answer_add : ℕ → BinderIo → Process Registry → Outcome (Answer Registry)
answer_add status r p = if status == 0 then reply_with (put_uint32 0) 0 r p else refuse r p

-- The cases SVC_MGR_GET_SERVICE and SVC_MGR_CHECK_SERVICE.
unfoldable pub on_get : BinderIo → BinderIo → Process Registry → Outcome (Answer Registry)
on_get msg r p =
    let (name, len, msg') = get_string8 p.mem msg in
    elim name [
      | none ↦ refuse r p
      | some name ↦ get_service name p >>= λ handle. answer_get handle r p
    ]

-- The case SVC_MGR_ADD_SERVICE.
unfoldable pub on_add : Txn → BinderIo → BinderIo → Process Registry → Outcome (Answer Registry)
on_add txn msg r p =
    let (name, len, msg1) = get_string8 p.mem msg in
    let (handle, msg2) = get_ref p.mem msg1 in
    let (allow, msg3) = get_uint32 p.mem msg2 in
    elim name [
      | none ↦ refuse r p
      | some name ↦
          add_service name
            (record {
              len = len;
              sender_euid = txn.sender_euid;
              sender_pid = txn.sender_pid;
              allow_isolated = if allow == 0 then 0 else 1;
              handle = handle;
            })
            p
          >>= λ added. answer_add added.0 r added.1
    ]

-- B_PACK_CHARS('_', 'P', 'N', 'G')
abbrev pub ping_transaction : ℕ
ping_transaction = 0x5f504e47

-- BnServiceManager::onTransact
unfoldable pub on_transact :
    Txn → BinderIo → BinderIo → Process Registry → Outcome (Answer Registry)
on_transact txn msg r p =
    let (strict_policy, msg') = get_uint32 p.mem msg in
    if not (txn.target == 0)
    then refuse r p
    else if txn.code == ping_transaction
    then done (record { status = 0; reply_bio = r; process = p })
    else if not (strict_policy == 0)
    then reply_with (put_uint32 minus_one) minus_one r p
    else if txn.code == 1 || txn.code == 2
    then on_get msg' r p
    else if txn.code == 3
    then on_add txn msg' r p
    else refuse r p
