-- ===== src/ServiceManager/Directory.antt =====
-- The requests of BnServiceManager::onTransact in frameworks/servicemanager/ServiceManager.cpp, from
-- the bytes of a message to the reply.
use zeus_os.Base.{
  ℕ, ◌+◌, ◌*◌, ◌/◌, ◌≤◌, ◌≡◌, ◌≢◌, refl, ap, ◌∙◌, ◌⊎◌, inl, inr, Option, some, List, ◌∷◌, arith,
  ◌==◌, if◌then◌else◌, length,
}
use zeus_os.Memory.{Mem}
use zeus_os.Parcel.{
  BinderIo, Txn, bio_init_from_txn, get_uint32, get_string8, get_ref, binder_type_handle,
}
use zeus_os.Binder.{Outcome, done, fault, blocked, ◌>>=◌, Process, Answer, Returns, Returns-bind}
use zeus_os.Marshal.Layout.{ObjectAt}
use zeus_os.Marshal.RoundTrip.{get_obj_lem}
use zeus_os.Marshal.Requests.{IsNamed, behind, unread, policy_read, name_read, name_spelled}
use zeus_os.ServiceManager.Nodes.{IsWellFormed}
use zeus_os.ServiceManager.Guarantees.{
  handle_of, Registers, add_service-Registers, add_service-IsWellFormed,
}
use zeus_os.ServiceManager.{
  Registry, BinderRef, add_service, answer_add, on_get, on_add, on_transact, bytes_eq,
}

-- A message with a text behind the policy word, as the driver delivers it to the manager.
pub record IsRequest (m : Mem) (t : Txn) (name : List ℕ) : Type 0 where
  pub to_manager : t.target ≡ 0
  pub message : IsNamed m t name
  pub short : length name ≤ 127

-- What passes the checks in front of the switch.
add_request :
    (t : Txn) (msg r : BinderIo) (p : Process Registry)
    → t.target ≡ 0
    → (get_uint32 p.mem msg).0 ≡ 0
    → t.code ≡ 3
    → on_transact t msg r p ≡ on_add t (get_uint32 p.mem msg).1 r p
unfolding on_transact
add_request t msg r p z policy c = rw (on_transact, policy, z, c) refl

pub get_request :
    (t : Txn) (msg r : BinderIo) (p : Process Registry)
    → t.target ≡ 0
    → (get_uint32 p.mem msg).0 ≡ 0
    → (t.code ≡ 1) ⊎ (t.code ≡ 2)
    → on_transact t msg r p ≡ on_get (get_uint32 p.mem msg).1 r p
unfolding on_transact
get_request t msg r p z policy (inl c) = rw (on_transact, policy, z, c) refl
get_request t msg r p z policy (inr c) = rw (on_transact, policy, z, c) refl

-- The arguments that addService is called with; `allow_isolated` is whatever follows the object.
abbrev request : Txn → ℕ → ℕ → ℕ → BinderRef
request t len allow handle = record {
  len = len;
  sender_euid = t.sender_euid;
  sender_pid = t.sender_pid;
  allow_isolated = allow;
  handle = handle;
}

add_arguments :
    (t : Txn) (msg r : BinderIo) (p : Process Registry) (at len handle : ℕ)
    → (get_string8 p.mem msg).0 ≡ some at
    → (get_string8 p.mem msg).1 ≡ len
    → (get_ref p.mem (get_string8 p.mem msg).2).0 ≡ handle
    → (let allow = (get_uint32 p.mem (get_ref p.mem (get_string8 p.mem msg).2).1).0 in
        on_add t msg r p ≡ (
          add_service at (request t len (if allow == 0 then 0 else 1) handle) p >>= λ x.
          answer_add x.0 r x.1))
unfolding on_add
add_arguments t msg r p at len handle text l h = rw (text, on_add, l, h) refl

-- A request to register a name for a handle.
pub record IsRegistration (m : Mem) (t : Txn) (name : List ℕ) (handle : ℕ) : Type 0 where
  pub request : IsRequest m t name
  pub to_add : t.code ≡ 3
  pub spacious : 24 + (length name + 4) / 4 * 4 ≤ t.data_size
  pub object :
      ObjectAt m t.buffer t.offsets (t.offsets_size / 4) (behind t name) binder_type_handle handle

-- What a handled registration means.
abbrev pub IsRegistered : List ℕ → ℕ → Process Registry → Answer Registry → Type 0
IsRegistered name handle p a =
    (a.status ≡ 0)
    × IsWellFormed a.process.service
    × ((j : List ℕ) → handle_of j a.process ≡ (if bytes_eq name j then handle else handle_of j p))

Returns-both {ℓ} :
    {A : Type ℓ} (o : Outcome A) (P Q : A → Type 0)
    → Returns o P
    → Returns o Q
    → Returns o (λ a. P a × Q a)
Returns-both (done a) P Q h k = (h, k)
Returns-both fault P Q h k = absurd h
Returns-both blocked P Q h k = absurd h

-- The answer to an accepted registration.
answer_accepted :
    (status : ℕ) (r : BinderIo) (name : List ℕ) (handle : ℕ) (p q : Process Registry)
    → status ≡ 0
    → IsWellFormed q.service
    → ((j : List ℕ) → handle_of j q ≡ (if bytes_eq name j then handle else handle_of j p))
    → Returns (answer_add status r q) (IsRegistered name handle p)
unfolding answer_add
answer_accepted status r name handle p q z w h = rw z (refl, w, h)

-- A registration request is handled: from its bytes, as the driver delivers them, the name, of 1 to
-- 127 bytes, gets the handle, which is not 0, the status is 0 and every other name keeps its handle.
-- The list is well-formed and malloc has memory.
pub on_transact-IsRegistered :
    (t : Txn) (name : List ℕ) (handle a : ℕ) (rest : List (Option ℕ)) (r : BinderIo)
    (p : Process Registry)
    → IsRegistration p.mem t name handle
    → IsWellFormed p.service
    → p.service.mallocs ≡ some a ∷ rest
    → 1 ≤ length name
    → handle ≢ 0
    → Returns (on_transact t (bio_init_from_txn t) r p) (IsRegistered name handle p)
unfolding get_ref
on_transact-IsRegistered t name handle a rest r p q w memory long z =
    let req = q.request in
    let msg = unread p.mem t name req.message in
    let at = t.buffer + 4 + 4 in
    let (text, len, reader) = name_read p.mem t name req.message in
    let (h, _) =
      get_obj_lem p.mem (get_string8 p.mem msg).2 reader
        (omega (arith, req.message.in_space, req.message.room)) binder_type_handle handle
        (omega arith) (omega (arith, q.spacious)) q.object in
    let arguments = add_arguments t msg r p at (length name) handle text len h in
    let ref = request t (length name) _ handle in
    rw
      (
        add_request t (bio_init_from_txn t) r p req.to_manager
            (policy_read p.mem t name req.message).0 q.to_add,
        arguments,
      )
      (Returns-bind (add_service at ref p) _ (λ x. Registers at ref p x × IsWellFormed x.1.service)
        _
        (Returns-both (add_service at ref p) _ _
          (add_service-Registers at a rest ref p w z long req.short memory)
          (add_service-IsWellFormed at ref p (omega (arith, req.short)) w))
        (λ x k. answer_accepted x.0 r name handle p x.1 k.0.0 k.1 (λ j.
          k.0.1 j
          ∙ ap (λ n. if bytes_eq n j then handle else handle_of j p)
              (name_spelled p.mem t name req.message))))
