-- ===== src/ServiceManager/Serving.antt =====
-- The process of packages/servicemanager/main_servicemanager.cpp: Binder::binderLoop with
-- BnServiceManager of frameworks/servicemanager/ServiceManager.cpp behind it.
use zeus_os.Base.{
  ℕ, ◌-◌, ◌≡◌, refl, ◌∙◌, inl, inr, Bool-cases, not, ◌||◌, Option-cases, Option, none, some, List,
  [], ◌∷◌, arith, ltb, ◌==◌, ap,
}
use zeus_os.Memory.{int_lt}
use zeus_os.Parcel.{BinderIo, Txn, get_uint32, get_string8, bio_init_from_txn, new_parcel}
use zeus_os.Binder.{
  Outcome, fault, Process, Handlers, UnlessFault, UnlessFault-bind, UnlessFault-if, transact,
  binder_send_reply, binder_loop, Answers, free_buffer, reply, reply_txn, acquired-append,
  released-append, enter_looper,
}
use zeus_os.Exchange.Ends.{AreFinite}
use zeus_os.Exchange.Keeping.{Keeps, AllData, LoopKeeps, binder_loop-Inv}
use zeus_os.ServiceManager.{
  SvcInfo, Registry, BinderRef, node_at, death_at, add_service, new_service, stays_in_name,
  find_svc, answer_get, answer_add, on_get, on_add, on_transact, ping_transaction,
  service_manager_binder_death,
}
use zeus_os.ServiceManager.Balance.{death-IsBalanced}
use zeus_os.ServiceManager.Guarantees.{death-IsWellFormed}
use zeus_os.ServiceManager.Bytes.{AreBytes, store-IsBytes}
use zeus_os.ServiceManager.Requests.{IsManaged, get_service_returns, on_transact-IsManaged}

-- The handlers of the process. It has no object of its own, so that a transaction with a target
-- calls through an address where none is.
abbrev pub manager_handlers : ℕ → ℕ → Handlers Registry
manager_handlers reply_buffer status_at = record {
  object = λ a txn msg r p. fault;
  manager = on_transact;
  death = death_at;
  reply_buffer = reply_buffer;
  status_at = status_at;
}

abbrev Ends {ℓ} : {A : Type ℓ} → Outcome A → Type 0
Ends o = UnlessFault o (λ _. Unit)

new_service-Ends :
    (name : ℕ) (r : BinderRef) (ms : List (Option ℕ)) (p : Process Registry)
    → Ends (new_service name r ms p)
unfolding new_service
new_service-Ends name r [] p = tt
new_service-Ends name r (none ∷ rest) p = tt
new_service-Ends name r (some a ∷ rest) p = UnlessFault-if (stays_in_name r.len) _ _ _ tt tt

add_service-Ends : (name : ℕ) (r : BinderRef) (p : Process Registry) → Ends (add_service name r p)
unfolding add_service
add_service-Ends name r p =
    UnlessFault-if (r.handle == 0 || r.len == 0 || int_lt 127 r.len) _ _ _ tt
      (elim (Option-cases (find_svc p.mem name r.len p.service.svclist)) [
        | inl missing ↦ rw missing (new_service-Ends name r p.service.mallocs p)
        | inr (si, found) ↦ rw found tt
      ])

on_get-Ends : (msg r : BinderIo) (p : Process Registry) → Ends (on_get msg r p)
unfolding on_get answer_get
on_get-Ends msg r p = elim (Option-cases (get_string8 p.mem msg).0) [
  | inl null ↦ rw (null, on_get) tt
  | inr (name, at) ↦
      rw (at, on_get)
        (UnlessFault-bind _ _ (λ _. Unit) (λ _. Unit) (get_service_returns name p)
          (λ handle _. UnlessFault-if (handle == 0) _ _ _ tt tt))
]

on_add-Ends : (txn : Txn) (msg r : BinderIo) (p : Process Registry) → Ends (on_add txn msg r p)
unfolding on_add answer_add
on_add-Ends txn msg r p = elim (Option-cases (get_string8 p.mem msg).0) [
  | inl null ↦ rw (null, on_add) tt
  | inr (name, at) ↦
      rw (at, on_add)
        (UnlessFault-bind _ _ (λ _. Unit) (λ _. Unit) (add_service-Ends name _ p)
          (λ x _. UnlessFault-if (x.0 == 0) _ _ _ tt tt))
]

on_transact-Ends :
    (txn : Txn) (msg r : BinderIo) (p : Process Registry) → Ends (on_transact txn msg r p)
unfolding on_transact
on_transact-Ends txn msg r p = UnlessFault-if (not (txn.target == 0)) _ _ _ tt (
    UnlessFault-if (txn.code == ping_transaction) _ _ _ tt (
      UnlessFault-if (not ((get_uint32 p.mem msg).0 == 0)) _ _ _ tt (
        UnlessFault-if (txn.code == 1 || txn.code == 2) _ _ _ (on_get-Ends _ r p)
          (UnlessFault-if (txn.code == 3) _ _ _ (on_add-Ends txn _ r p) tt))))

death_at-Ends : (death : ℕ) (p : Process Registry) → Ends (death_at death p)
unfolding death_at
death_at-Ends death p =
    UnlessFault-if (ltb death 8) _ _ _ tt
      (elim (Option-cases (node_at (death - 8) p.service.svclist)) [
        | inl missing ↦ rw missing tt
        | inr (si, found) ↦ rw found tt
      ])

manager_handlers-AreFinite :
    (reply_buffer status_at : ℕ) → AreFinite (manager_handlers reply_buffer status_at)
unfolding transact
manager_handlers-AreFinite reply_buffer status_at = record {
  transacts = λ t p. elim (Bool-cases (t.target == 0)) [
    | inl y ↦
        rw y (UnlessFault-bind _ _ (λ _. Unit) (λ _. Unit) (on_transact-Ends t _ _ p) (λ a u. tt))
    | inr n ↦ rw n tt
  ];
  deaths = death_at-Ends;
}

-- A reply takes and gives up no reference.
reply-IsManaged :
    (r : BinderIo) (buffer status status_at : ℕ) (p : Process Registry)
    → IsManaged p
    → IsManaged (binder_send_reply r buffer status status_at p)
unfolding binder_send_reply
reply-IsManaged r buffer status status_at p (m, s) = (
  m,
  record {
    well_formed = s.well_formed;
    balanced = λ h z. omega (
      arith,
      s.balanced h z,
      acquired-append h p.sent (free_buffer buffer ∷ reply (reply_txn status status_at r) ∷ []),
      released-append h p.sent (free_buffer buffer ∷ reply (reply_txn status status_at r) ∷ []),
    );
  },
)

transact-IsManaged :
    (reply_buffer status_at : ℕ) (t : Txn) (p : Process Registry)
    → IsManaged p
    → UnlessFault (transact (manager_handlers reply_buffer status_at) t p) IsManaged
unfolding transact
transact-IsManaged reply_buffer status_at t p i = elim (Bool-cases (t.target == 0)) [
  | inl y ↦ rw y (
      UnlessFault-bind (on_transact t (bio_init_from_txn t) (new_parcel reply_buffer) p) _
        (λ a. IsManaged a.process) IsManaged (on_transact-IsManaged t _ _ p i)
        (λ a k. reply-IsManaged a.reply_bio t.buffer a.status status_at a.process k))
  | inr n ↦ rw n tt
]

node_at-address : (a : ℕ) (l : List SvcInfo) (si : SvcInfo) → node_at a l ≡ some si → si.address ≡ a
unfolding node_at
node_at-address a [] si e = cc
node_at-address a (x ∷ l) si e = ground (arith, node_at-address a l si)

death-mem : (si : SvcInfo) (p : Process Registry) → (service_manager_binder_death si p).mem ≡ p.mem
unfolding service_manager_binder_death
death-mem si p = elim (Bool-cases (si.handle == 0)) [ inl z ↦ rw z refl | inr n ↦ rw n refl ]

death_at-IsManaged :
    (death : ℕ) (p : Process Registry) → IsManaged p → UnlessFault (death_at death p) IsManaged
unfolding death_at
death_at-IsManaged death p (m, s) =
    UnlessFault-if (ltb death 8) _ _ IsManaged tt
      (elim (Option-cases (node_at (death - 8) p.service.svclist)) [
        | inl missing ↦ rw missing tt
        | inr (si, found) ↦ rw found (
          (λ a. rw (death-mem si p) (m a)),
          record {
            well_formed = death-IsWellFormed si p s.well_formed;
            balanced =
                death-IsBalanced si p
                  (ap (λ a. node_at a p.service.svclist) (node_at-address _ _ si found) ∙ found)
                  s.balanced;
          },
        )
      ])

manager_handlers-Keeps :
    (reply_buffer status_at readbuf : ℕ)
    → Keeps readbuf AreBytes IsManaged (manager_handlers reply_buffer status_at)
manager_handlers-Keeps reply_buffer status_at readbuf = record {
  transacts = transact-IsManaged reply_buffer status_at;
  deaths = death_at-IsManaged;
  starts = λ p (m, s). (m, record { well_formed = s.well_formed; balanced = s.balanced });
  enters = λ p (m, s). (
    m,
    record {
      well_formed = s.well_formed;
      balanced = λ h z. omega (
        arith,
        s.balanced h z,
        acquired-append h p.sent (enter_looper ∷ []),
        released-append h p.sent (enter_looper ∷ []),
      );
    },
  );
  reads = λ bytes p d (m, s). (
    store-IsBytes p.mem readbuf bytes m d,
    record { well_formed = s.well_formed; balanced = s.balanced },
  );
}

-- The whole run of the service manager: whatever bytes the driver answers, in however many
-- answers, its main loop gets through them, and unless its behaviour is undefined it leaves a
-- memory of bytes and a registry that is sound: the list is well-formed, and the references held
-- on every handle are as many as the nodes that have it. It starts from such a state, and every
-- byte of an answer is below 256.
pub manager_loop-IsManaged :
    (reply_buffer status_at readbuf : ℕ) (answers : Answers) (p : Process Registry)
    → AllData AreBytes answers
    → IsManaged p
    → UnlessFault
        (binder_loop (manager_handlers reply_buffer status_at) readbuf answers p)
        (LoopKeeps IsManaged)
manager_loop-IsManaged reply_buffer status_at readbuf =
    binder_loop-Inv readbuf AreBytes IsManaged (manager_handlers reply_buffer status_at)
      (manager_handlers-Keeps reply_buffer status_at readbuf)
      (manager_handlers-AreFinite reply_buffer status_at)
