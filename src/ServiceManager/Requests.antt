-- ===== src/ServiceManager/Requests.antt =====
-- BnServiceManager::onTransact of frameworks/servicemanager/ServiceManager.cpp on whatever request
-- arrives.
use zeus_os.Base.{
  ℕ, ◌≡◌, refl, ◌+◌, ◌<◌, inl, inr, Bool, true, false, Bool-cases, not, ◌||◌, Option-cases, Option,
  none, some, arith, subst, ◌==◌, if◌then◌else◌,
}
use zeus_os.Memory.{Mem, u32_mod, load_word}
use zeus_os.Parcel.{
  Parcel, BinderIo, Txn, take_bytes, get_uint32, get_string8, word_or_zero, put_uint32, put_ref,
}
use zeus_os.Binder.{
  Outcome, Process, Answer, UnlessFault, UnlessFault-bind, UnlessFault-weaken, binder_release,
  binder_acquire, binder_link_to_death,
}
use zeus_os.ServiceManager.{
  SvcInfo, Registry, BinderRef, service_manager_binder_death, minus_one, add_service, get_service,
  strlen, find_svc, map_size, answer_get, answer_add, on_get, on_add, on_transact, ping_transaction,
  reply_with,
}
use zeus_os.ServiceManager.Bytes.{IsBytes, put_uint32-IsBytes, put_ref-IsBytes}
use zeus_os.ServiceManager.Nodes.{IsWellFormed, Unused, node_at-lookup_name}
use zeus_os.ServiceManager.Registration.{refreshed, add_service_cases}
use zeus_os.ServiceManager.Balance.{IsBalanced, refreshed-IsBalanced, extended-IsBalanced}
use zeus_os.ServiceManager.Guarantees.{refreshed-IsWellFormed, extended-IsWellFormed}

refreshed-mem :
    (si : SvcInfo) (r : BinderRef) (p : Process Registry) → (refreshed si r p).mem ≡ p.mem
unfolding binder_acquire binder_link_to_death service_manager_binder_death binder_release
refreshed-mem si r p = elim (Bool-cases (si.handle == 0)) [ inl z ↦ rw z refl | inr n ↦ rw n refl ]

load_word-lt : (m : Mem) (p : ℕ) → IsBytes m → load_word m p < u32_mod
unfolding load_word
load_word-lt m p h = omega (arith, h p, h (p + 1), h (p + 2), h (p + 3))

get_string8-lt : (m : Mem) (b : BinderIo) → IsBytes m → (get_string8 m b).1 < u32_mod
unfolding get_string8 get_uint32
get_string8-lt m b h = go (take_bytes 4 b)
  where
    go : (r : Option ℕ × BinderIo) → (word_or_zero m r).0 < u32_mod
    go (none, c) = omega arith
    go (some q, c) = load_word-lt m q h

-- The registry invariant.
pub record IsSound (p : Process Registry) : Type 0 where
  pub well_formed : IsWellFormed p.service
  pub balanced : IsBalanced p

-- With the memory, what every request keeps.
abbrev pub IsManaged : Process Registry → Type 0
IsManaged p = IsBytes p.mem × IsSound p

add_service-IsSound :
    (name : ℕ) (r : BinderRef) (p : Process Registry)
    → r.len < u32_mod
    → IsSound p
    → UnlessFault (add_service name r p) (λ x. IsSound x.1)
unfolding binder_acquire binder_link_to_death
add_service-IsSound name r p lt s =
    let w = s.well_formed in
    add_service_cases (λ o. UnlessFault o (λ x. IsSound x.1)) name r p lt w (λ _. s)
      (λ rest q. record {
        well_formed = record {
          sized = w.sized;
          distinct = w.distinct;
          named = w.named;
          unused = subst (λ ms. Unused ms p.service.svclist) q w.unused;
        };
        balanced = s.balanced;
      })
      (λ _. tt)
      (λ si e _. record {
        well_formed = refreshed-IsWellFormed si r p w;
        balanced = refreshed-IsBalanced si r p (node_at-lookup_name _ _ si w.distinct e) s.balanced;
      })
      (λ a rest e q _ lo hi. record {
        well_formed =
            extended-IsWellFormed a rest name r p w e
              (subst (λ ms. Unused ms p.service.svclist) q w.unused) lo hi;
        balanced = extended-IsBalanced a rest name r p s.balanced;
      })

-- A registration writes to the nodes and not to the memory of the parcels.
add_service-IsManaged :
    (name : ℕ) (r : BinderRef) (p : Process Registry)
    → r.len < u32_mod
    → IsManaged p
    → UnlessFault (add_service name r p) (λ x. IsManaged x.1)
unfolding binder_acquire binder_link_to_death
add_service-IsManaged name r p lt (m, s) =
    add_service_cases (λ o. UnlessFault o (λ x. IsSound x.1) → UnlessFault o (λ x. IsManaged x.1))
      name r p lt s.well_formed (λ _ k. (m, k)) (λ rest q k. (m, k)) (λ _ k. tt)
      (λ si e _ k. (λ a. rw (refreshed-mem si r p) (m a), k)) (λ a rest e q _ lo hi k. (m, k))
      (add_service-IsSound name r p lt s)

abbrev Keeps : Outcome (Answer Registry) → Type 0
Keeps o = UnlessFault o (λ a. IsManaged a.process)

Keeps-if :
    (b : Bool) (o o' : Outcome (Answer Registry)) → Keeps o → Keeps o' → Keeps (if b then o else o')
Keeps-if true o o' h k = h
Keeps-if false o o' h k = k

reply_with-IsManaged :
    (put : Parcel → Parcel) (status : ℕ) (r : BinderIo) (p : Process Registry)
    → ((q : Parcel) → IsBytes q.mem → IsBytes (put q).mem)
    → IsManaged p
    → Keeps (reply_with put status r p)
reply_with-IsManaged put status r p k (m, s) =
    (k _ m, record { well_formed = s.well_formed; balanced = s.balanced })

answer_add-IsManaged :
    (status : ℕ) (r : BinderIo) (p : Process Registry) → IsManaged p → Keeps (answer_add status r p)
unfolding answer_add
answer_add-IsManaged status r p s = elim (Bool-cases (status == 0)) [
  | inl z ↦ rw z (reply_with-IsManaged (put_uint32 0) 0 r p (put_uint32-IsBytes 0) s)
  | inr n ↦ rw n s
]

answer_get-IsManaged :
    (handle : ℕ) (r : BinderIo) (p : Process Registry) → IsManaged p → Keeps (answer_get handle r p)
unfolding answer_get
answer_get-IsManaged handle r p s = elim (Bool-cases (handle == 0)) [
  | inl z ↦ rw z (reply_with-IsManaged (put_uint32 0) 0 r p (put_uint32-IsBytes 0) s)
  | inr n ↦ rw n (reply_with-IsManaged (put_ref handle) 0 r p (put_ref-IsBytes handle) s)
]

on_add-IsManaged :
    (txn : Txn) (msg r : BinderIo) (p : Process Registry) → IsManaged p → Keeps (on_add txn msg r p)
unfolding on_add
on_add-IsManaged txn msg r p s = elim (Option-cases (get_string8 p.mem msg).0) [
  | inl null ↦ rw (null, on_add) s
  | inr (name, at) ↦
      rw (at, on_add)
        (UnlessFault-bind _ _ (λ x. IsManaged x.1) (λ a. IsManaged a.process)
          (add_service-IsManaged name _ p (get_string8-lt p.mem msg s.0) s)
          (λ x. answer_add-IsManaged x.0 r x.1))
]

-- getService returns or runs off the end of an unterminated name.
pub get_service_returns :
    (name : ℕ) (p : Process Registry) → UnlessFault (get_service name p) (λ _. Unit)
unfolding get_service
get_service_returns name p = elim (Option-cases (strlen map_size p.mem name)) [
  | inl off ↦ rw (off, get_service) tt
  | inr (n, e) ↦ elim (Option-cases (find_svc p.mem name n p.service.svclist)) [
    | inl missing ↦ rw (e, get_service, missing) tt
    | inr (si, found) ↦ rw (e, get_service, found) tt
  ]
]

on_get-IsManaged : (msg r : BinderIo) (p : Process Registry) → IsManaged p → Keeps (on_get msg r p)
unfolding on_get
on_get-IsManaged msg r p s = elim (Option-cases (get_string8 p.mem msg).0) [
  | inl null ↦ rw (null, on_get) s
  | inr (name, at) ↦
      rw (at, on_get)
        (UnlessFault-bind _ _ (λ _. Unit) (λ a. IsManaged a.process) (get_service_returns name p)
          (λ handle _. answer_get-IsManaged handle r p s))
]

pub on_transact-IsManaged :
    (txn : Txn) (msg r : BinderIo) (p : Process Registry)
    → IsManaged p
    → UnlessFault (on_transact txn msg r p) (λ a. IsManaged a.process)
unfolding on_transact
on_transact-IsManaged txn msg r p s = Keeps-if (not (txn.target == 0)) _ _ s (
    Keeps-if (txn.code == ping_transaction) _ _ s (
      Keeps-if (not ((get_uint32 p.mem msg).0 == 0)) _ _
        (reply_with-IsManaged (put_uint32 minus_one) minus_one r p (put_uint32-IsBytes minus_one) s)
        (Keeps-if (txn.code == 1 || txn.code == 2) _ _ (on_get-IsManaged _ r p s)
          (Keeps-if (txn.code == 3) _ _ (on_add-IsManaged txn _ r p s) s))))

-- Whatever bytes a request holds and whatever its code, the manager does not wait, and if no read
-- or write leaves its object, the list is well-formed afterwards and the references held on every
-- handle are as many as the nodes that have it.
pub on_transact-IsSound :
    (txn : Txn) (msg r : BinderIo) (p : Process Registry)
    → IsBytes p.mem
    → IsSound p
    → UnlessFault (on_transact txn msg r p) (λ a. IsSound a.process)
on_transact-IsSound txn msg r p bytes s =
    UnlessFault-weaken (on_transact txn msg r p) _ _ (on_transact-IsManaged txn msg r p (bytes, s))
      (λ a k. k.1)
