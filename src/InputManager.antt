-- ===== src/InputManager.antt =====
-- The listeners of input events: BnInputManager of frameworks/inputmanager/InputManager.cpp.
pub mod Listeners
pub mod Subscriptions
pub mod Delivery
pub mod Joining
pub mod Joins
pub mod Arrivals
pub mod Examples
use zeus_os.Base.{
  ℕ, zero, suc, ◌+◌, ◌/◌, ◌%◌, Bool, true, false, ◌&&◌, ◌||◌, Option, none, some, List, [], ◌∷◌,
  ◌++◌, ◌==◌, if◌then◌else◌,
}
use zeus_os.Memory.{Mem}
use zeus_os.Parcel.{BinderIo, Txn, get_uint32, get_string8, get_fd, get_ref, put_uint32}
use zeus_os.Binder.{
  Outcome, done, fault, ◌>>=◌, Process, Answer, binder_acquire, binder_release,
  binder_link_to_death,
}
use zeus_os.EventDevice.{CookEvent}
use zeus_os.ServiceManager.{map_size}

-- struct ListenerDesc at its address; `death` is the address of its BinderDeath.
pub record ListenerDesc : Type 0 where
  pub address : ℕ
  pub type : ℕ
  pub uid : ℕ
  pub fd : ℕ
  pub name : Option ℕ
  pub handle : ℕ
  pub death : ℕ

-- mListenerDescList, what malloc and dup return next, and what write was given.
pub record Listening : Type 0 where
  pub listeners : List ListenerDesc
  pub mallocs : List (Option ℕ)
  pub dups : List ℕ
  pub writes : List (ℕ × CookEvent)

-- -1
abbrev pub minus_one : ℕ
minus_one = 0xffffffff

-- a & b, as a truth value, on the lowest bits.
unfoldable pub shares_bit : ℕ → ℕ → ℕ → Bool
shares_bit zero a b = false
shares_bit (suc n) a b = (a % 2 == 1 && b % 2 == 1) || shares_bit n (a / 2) (b / 2)

abbrev pub wants : CookEvent → ListenerDesc → Bool
wants e d = shares_bit 32 e.type d.type

-- The loop of dispatchEvent; the results of write are not looked at.
unfoldable pub dispatched : CookEvent → List ListenerDesc → List (ℕ × CookEvent)
dispatched e [] = []
dispatched e (d ∷ ds) = if wants e d then (d.fd, e) ∷ dispatched e ds else dispatched e ds

unfoldable pub dispatch_event : CookEvent → Process Listening → Process Listening
dispatch_event e p = record p {
  service = record (p.service) { writes = p.service.writes ++ dispatched e p.service.listeners };
}

unfoldable pub add_listener : ListenerDesc → Process Listening → ℕ × Process Listening
unfolding binder_acquire binder_link_to_death
add_listener d p =
    if d.handle == 0
    then (minus_one, p)
    else (let q = binder_link_to_death d.handle d.death (binder_acquire d.handle p) in
        (
          0,
          record q { service = record (q.service) { listeners = q.service.listeners ++ d ∷ [] } },
        ))

-- std::list::remove of a pointer.
unfoldable pub remove : ℕ → List ListenerDesc → List ListenerDesc
remove a [] = []
remove a (d ∷ ds) = if d.address == a then remove a ds else d ∷ remove a ds

-- A use of an iterator whose node was erased, and of what it points to, is undefined.
unfoldable pub use_erased : Process Listening → Outcome (ℕ × Process Listening)
use_erased p = fault

-- The loop of delListener. `remove` takes the listener off the list and erases its node, and the
-- iterator of that node is used for binderRelease and free.
unfoldable pub del_listener :
    ℕ → List ListenerDesc → Process Listening → Outcome (ℕ × Process Listening)
del_listener uid [] p = done (minus_one, p)
del_listener uid (d ∷ ds) p =
    if uid == d.uid
    then use_erased (record p {
      service = record (p.service) { listeners = remove d.address p.service.listeners };
    })
    else del_listener uid ds p

-- The part of inputBinderDeath that takes the listener off the list and gives its reference back.
unfoldable pub drop_listener : ListenerDesc → Process Listening → Process Listening
unfolding binder_release
drop_listener d p =
    if d.handle == 0
    then p
    else binder_release d.handle (record p {
      service = record (p.service) { listeners = remove d.address p.service.listeners };
    })

unfoldable pub with_death : ℕ → List ListenerDesc → Option ListenerDesc
with_death a [] = none
with_death a (d ∷ ds) = if d.death == a then some d else with_death a ds

-- Whether printf comes to the end of the text at an address: to a zero byte, over the size of the
-- driver's mapping, without an address that is not `mapped`.
unfoldable pub ends : ℕ → (ℕ → Bool) → Mem → ℕ → Bool
ends zero mapped m p = false
ends (suc n) mapped m p = elim (mapped p) [
  | false ↦ false
  | true ↦ elim (m p == 0) [ true ↦ true | false ↦ ends n mapped m (p + 1) ]
]

abbrev pub can_print : (ℕ → Bool) → Mem → Option ℕ → Bool
can_print mapped m none = false
can_print mapped m (some p) = ends map_size mapped m p

-- inputBinderDeath on the description that a BinderDeath points to. It prints pcName, which lies in
-- the buffer of the request, long given back to the driver: what is there at the time of the death is
-- `p.mem`, and which addresses have a page is `mapped`.
unfoldable pub input_binder_death :
    (ℕ → Bool) → ListenerDesc → Process Listening → Outcome (Process Listening)
input_binder_death mapped d p =
    if can_print mapped p.mem d.name then done (drop_listener d p) else fault

-- BR_DEAD_BINDER with the address of a BinderDeath; those that were freed are not to be read.
unfoldable pub listener_death : (ℕ → Bool) → ℕ → Process Listening → Outcome (Process Listening)
listener_death mapped a p = elim (with_death a p.service.listeners) [
  | none ↦ fault
  | some d ↦ input_binder_death mapped d p
]

-- A result of malloc that is written through.
unfoldable pub allocate : Process Listening → Outcome (ℕ × Process Listening)
allocate p = elim p.service.mallocs [
  | [] ↦ fault
  | m ∷ rest ↦ elim m [
    | none ↦ fault
    | some a ↦ done (a, record p { service = record (p.service) { mallocs = rest } })
  ]
]

unfoldable pub dup : Process Listening → ℕ × Process Listening
dup p = elim p.service.dups [
  | [] ↦ (minus_one, p)
  | fd ∷ rest ↦ (fd, record p { service = record (p.service) { dups = rest } })
]

-- putUint32(iRet), and `return 0`.
abbrev answer : ℕ → BinderIo → Process Listening → Outcome (Answer Listening)
answer ret r p =
    let q = put_uint32 ret (record { mem = p.mem; bio = r }) in
    done (record { status = 0; reply_bio = q.bio; process = record p { mem = q.mem } })

-- The case INPUTMANAGER_ADD_LISTENER.
unfoldable pub on_add_listener :
    BinderIo → BinderIo → Process Listening → Outcome (Answer Listening)
on_add_listener msg r p = do
  desc ← allocate p
  let (type, msg1) = get_uint32 p.mem msg
  let (uid, msg2) = get_uint32 p.mem msg1
  let (fd, msg3) = get_fd p.mem msg2
  let duped = dup desc.1
  let (name, len, msg4) = get_string8 p.mem msg3
  let (handle, msg5) = get_ref p.mem msg4
  death ← allocate duped.1
  let added =
      add_listener
        (record {
          address = desc.0;
          type = type;
          uid = uid;
          fd = duped.0;
          name = name;
          handle = handle;
          death = death.0;
        })
        death.1
  answer added.0 r added.1

-- The case INPUTMANAGER_DEL_LISTENER.
unfoldable pub on_del_listener :
    BinderIo → BinderIo → Process Listening → Outcome (Answer Listening)
on_del_listener msg r p = do
  deleted ← del_listener (get_uint32 p.mem msg).0 p.service.listeners p
  answer deleted.0 r deleted.1

-- BnInputManager::onTransact
unfoldable pub on_transact :
    Txn → BinderIo → BinderIo → Process Listening → Outcome (Answer Listening)
on_transact txn msg r p =
    let (strict_policy, msg') = get_uint32 p.mem msg in
    if strict_policy == 0
    then (if txn.code == 1
        then on_add_listener msg' r p
        else if txn.code == 2
        then on_del_listener msg' r p
        else done (record { status = minus_one; reply_bio = r; process = p }))
    else (let q = put_uint32 minus_one (record { mem = p.mem; bio = r }) in
        done (record { status = minus_one; reply_bio = q.bio; process = record p { mem = q.mem } }))
