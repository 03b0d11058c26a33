-- ===== src/ServiceManager/Finding.antt =====
-- A lookup by BnServiceManager::onTransact of frameworks/servicemanager/ServiceManager.cpp, from the
-- bytes of the request to what the client reads from the reply.
use zeus_os.Base.{
  ℕ, ◌+◌, ◌≤◌, ◌<◌, ◌≡◌, ◌≢◌, refl, sym, ap, subst, ◌∙◌, ◌⊎◌, inl, inr, Option, Bool-cases, some,
  List, [], ◌∷◌, arith, ◌==◌, ==_iff, zero, suc, if◌then◌else◌, length, All,
}
use zeus_os.Memory.{Mem, u32_mod}
use zeus_os.Parcel.{
  BinderIo, Txn, bio_init_from_txn, get_string8, get_ref, new_parcel, put_uint32, has_offset,
  get_obj, bio_alloc,
}
use zeus_os.Binder.{Process, Answer, Returns, Returns-weaken, reply_txn, call_txn}
use zeus_os.Marshal.Items.{Item, ref, put_item, put_items}
use zeus_os.Marshal.RoundTrip.{get_items, get_item, reference}
use zeus_os.Marshal.Room.{objects}
use zeus_os.Marshal.Delivery.{get_items-put_items}
use zeus_os.ServiceManager.{Registry, answer_get, on_get, on_transact, map_size}
use zeus_os.Marshal.Requests.{unread, policy_read, name_read, request-IsText}
use zeus_os.ServiceManager.Nodes.{IsWellFormed, bytes_eq_iff}
use zeus_os.ServiceManager.Guarantees.{handle_of, get_service-handle_of}
use zeus_os.ServiceManager.Texts.{IsText, strlen-IsText}
use zeus_os.ServiceManager.Directory.{
  IsRequest, get_request, IsRegistration, on_transact-IsRegistered,
}

-- What a client reads from a reply, where the driver delivers its transaction unchanged.
abbrev pub reply_read : Answer Registry → List Item
reply_read a =
    get_items (reference ∷ []) a.process.mem (bio_init_from_txn (reply_txn 0 0 a.reply_bio))

-- No object is read from a message that has no entries.
get_items-no_entries :
    (m : Mem) (b : BinderIo) → b.offs_avail ≡ 0 → get_items (reference ∷ []) m b ≡ ref 0 ∷ []
unfolding get_items get_item get_ref get_obj has_offset
get_items-no_entries m b e = rw e refl

-- The reply to a lookup holds the handle, or no object for none.
answer_get-reply_read :
    (handle base : ℕ) (p : Process Registry)
    → handle < u32_mod
    → base + 1024 < u32_mod
    → Returns
        (answer_get handle (new_parcel base) p)
        (λ a. (a.status ≡ 0) × (reply_read a ≡ ref handle ∷ []) × (a.process.service ≡ p.service))
unfolding answer_get reply_txn bio_init_from_txn call_txn put_items put_item put_uint32 bio_alloc
    new_parcel
answer_get-reply_read handle base p l u = elim (Bool-cases (handle == 0)) [
  | inl z ↦ rw z (
    refl,
    get_items-no_entries _ _ (omega arith) ∙ ap (λ h. ref h ∷ []) (sym ((==_iff handle 0).0 z)),
    refl,
  )
  | inr n ↦
      let pos : 0 < handle = ground arith in
      rw n (
        refl,
        get_items-put_items base 0 0 0 p.mem (ref handle ∷ []) u ((pos, l), tt) (omega arith)
            (objects_one handle),
        refl,
      )
]
  where
    objects_one : (h : ℕ) → objects (ref h ∷ []) ≤ 4
    objects_one zero = omega arith
    objects_one (suc h) = omega arith

on_get-handle_of :
    (msg r : BinderIo) (p : Process Registry) (at : ℕ) (name : List ℕ)
    → (get_string8 p.mem msg).0 ≡ some at
    → IsText p.mem at name
    → length name ≤ 127
    → IsWellFormed p.service
    → on_get msg r p ≡ answer_get (handle_of name p) r p
unfolding on_get
on_get-handle_of msg r p at name text t short w =
    rw
      (
        text,
        on_get,
        get_service-handle_of at (length name) p
            (strlen-IsText map_size p.mem at name t (omega arith)) w,
        t.spelled,
      )
      refl

-- The client that asks for a name reads the handle that the name has, or 0 for none.
lookup-reply_read :
    (t : Txn) (name : List ℕ) (base : ℕ) (p : Process Registry)
    → IsRequest p.mem t name
    → (t.code ≡ 1) ⊎ (t.code ≡ 2)
    → All (λ c. c ≢ 0) name
    → IsWellFormed p.service
    → handle_of name p < u32_mod
    → base + 1024 < u32_mod
    → Returns (on_transact t (bio_init_from_txn t) (new_parcel base) p) (λ a.
      (a.status ≡ 0)
      × (reply_read a ≡ ref (handle_of name p) ∷ [])
      × (a.process.service ≡ p.service))
lookup-reply_read t name base p q c nonzero w l u =
    rw
      (
        get_request t (bio_init_from_txn t) (new_parcel base) p q.to_manager
            (policy_read p.mem t name q.message).0 c,
        on_get-handle_of (unread p.mem t name q.message) (new_parcel base) p (t.buffer + 4 + 4) name
            (name_read p.mem t name q.message).0 (request-IsText p.mem t name q.message nonzero)
            q.short w,
      )
      (answer_get-reply_read (handle_of name p) base p l u)

-- A service that is registered is found. The request to add a name, as its bytes are delivered,
-- returns with the status 0; and in whatever memory later requests arrive, one that looks the name
-- up is answered with the handle that was registered, as the client reads it from the reply, also
-- where the name had another handle before, and leaves the registry as it is. The name has 1 to 127
-- bytes, none of them 0, the handle is not 0, malloc has memory and the registry is well-formed.
pub on_transact-reply_read :
    (t t2 : Txn) (name : List ℕ) (handle a base base2 : ℕ) (rest : List (Option ℕ)) (m2 : Mem)
    (p : Process Registry)
    → IsRegistration p.mem t name handle
    → IsRequest m2 t2 name
    → (t2.code ≡ 1) ⊎ (t2.code ≡ 2)
    → IsWellFormed p.service
    → p.service.mallocs ≡ some a ∷ rest
    → 1 ≤ length name
    → All (λ c. c ≢ 0) name
    → handle ≢ 0
    → handle < u32_mod
    → base2 + 1024 < u32_mod
    → Returns (on_transact t (bio_init_from_txn t) (new_parcel base) p) (λ x.
      (x.status ≡ 0)
      × Returns
          (on_transact t2
            (bio_init_from_txn t2)
            (new_parcel base2)
            (record (x.process) { mem = m2 }))
          (λ y.
            (y.status ≡ 0)
            × (reply_read y ≡ ref handle ∷ [])
            × (y.process.service ≡ x.process.service)))
on_transact-reply_read t t2 name handle a base base2 rest m2 p q q2 c w memory long nonzero z l u =
    Returns-weaken (on_transact t (bio_init_from_txn t) (new_parcel base) p) _ _
      (on_transact-IsRegistered t name handle a rest (new_parcel base) p q w memory long z)
      (λ x k.
        let found : handle_of name x.process ≡ handle =
          k.2 name
          ∙ ap (λ b. if b then handle else handle_of name p) ((bytes_eq_iff name name).1 refl) in
        (
          k.0,
          subst
              (λ h.
                Returns
                  (on_transact t2 (bio_init_from_txn t2) (new_parcel base2)
                    (record (x.process) { mem = m2 }))
                  (λ y.
                    (y.status ≡ 0)
                    × (reply_read y ≡ ref h ∷ [])
                    × (y.process.service ≡ x.process.service)))
              found
              (lookup-reply_read t2 name base2 (record (x.process) { mem = m2 }) q2 c nonzero k.1
                (omega (arith, found)) u),
        ))
