-- ===== src/Proxies/Lookup.antt =====
-- What a client has got from BpServiceManager::getService of
-- frameworks/servicemanager/ServiceManager.cpp.
use mathlib.Core.List.{append_assoc}
use zeus_os.Base.{
  ℕ, ◌+◌, ◌-◌, ◌%◌, ◌≡◌, refl, sym, ap, subst, ◌∙◌, inl, inr, true, false, Bool-cases, Option, none,
  some, List, [], ◌∷◌, ◌++◌, map, All, ltb, ◌==◌, if◌then◌else◌,
}
use zeus_os.Memory.{Mem, u32_mod}
use zeus_os.Parcel.{
  BinderIo, Txn, bio_init_from_txn, take_bytes, get_obj, get_ref, handle_of, align4, has_offset,
  new_parcel, binder_type_handle,
}
use zeus_os.Binder.{
  Process, Returns, Returns-bind, Called, Command, acquire, free_buffer, transaction, call_txn,
  send, binder_done, binder_call, binder_acquire, Answers,
}
use zeus_os.Exchange.Returns.{Return, reply, Spares}
use zeus_os.Exchange.Answers.{answer_bytes}
use zeus_os.Exchange.Replies.{IsQuiet, IsAnswer, Delivers, binder_call-Delivers}
use zeus_os.Proxies.{Client, take_handle, service_message, bp_get_service}

-- Reading moves on in a message and leaves alone whose message it is.
abbrev IsSameMessage : BinderIo → BinderIo → Type 0
IsSameMessage r q = (q.flags.shared ≡ r.flags.shared) × (q.data0 ≡ r.data0)

take_bytes-IsSameMessage : (n : ℕ) (r : BinderIo) → IsSameMessage r (take_bytes n r).1
unfolding take_bytes
take_bytes-IsSameMessage n r = elim (Bool-cases (ltb r.data_avail (align4 n))) [
  | inl y ↦ rw y (refl, refl)
  | inr n ↦ rw n (refl, refl)
]

get_ref-IsSameMessage : (m : Mem) (r : BinderIo) → IsSameMessage r (get_ref m r).1
unfolding get_ref get_obj
get_ref-IsSameMessage m r =
    handled (get_obj m r)
      (elim (Bool-cases
        (has_offset m r.offs_avail r.offs ((r.data_ptr + u32_mod - r.data0) % u32_mod))) [
          | inl y ↦ rw y (take_bytes-IsSameMessage 16 r)
          | inr n ↦ rw n (refl, refl)
        ])
  where
    handled :
        (o : Option ℕ × BinderIo)
        → IsSameMessage r o.1
        → IsSameMessage r (handle_of m binder_type_handle o).1
    handled (none, b) s = s
    handled (some a, b) s = s

done_shared :
    {S : Type 0} (r : BinderIo) (p : Process S)
    → r.flags.shared ≡ true
    → (binder_done r p).1 ≡ send (free_buffer r.data0 ∷ []) p
unfolding binder_done
done_shared r p e = rw (binder_done, e) refl

-- The commands that follow the call: a reference on a handle that is not 0, and then the reply.
abbrev pub claims : ℕ → ℕ → List Command
claims handle buffer =
    if handle == 0 then free_buffer buffer ∷ [] else acquire handle ∷ free_buffer buffer ∷ []

module _ {S : Type 0} where
  -- The handle is that of the reply, whose memory is as it was.
  abbrev pub IsClaimed : Txn → List Command → ℕ × Process S → Type 0
  IsClaimed t sent x =
      (x.0 ≡ (get_ref x.1.mem (bio_init_from_txn t)).0) × (x.1.sent ≡ sent ++ claims x.0 t.buffer)

  abbrev hold : ℕ → Process S → Process S
  hold handle p = if handle == 0 then p else binder_acquire handle p

  claimed_from :
      (handle buffer : ℕ) (r : BinderIo) (p : Process S)
      → r.flags.shared ≡ true
      → r.data0 ≡ buffer
      → ((binder_done r (hold handle p)).1.mem ≡ p.mem)
        × ((binder_done r (hold handle p)).1.sent ≡ p.sent ++ claims handle buffer)
  unfolding binder_acquire
  claimed_from handle buffer r p e b = elim (Bool-cases (handle == 0)) [
    | inl y ↦ rw y (
      ap (λ (q : Process S). q.mem) (done_shared r p e),
      ap (λ (q : Process S). q.sent) (done_shared r p e) ∙ ap (λ d. p.sent ++ free_buffer d ∷ []) b,
    )
    | inr n ↦ rw n (
      ap (λ (q : Process S). q.mem) (done_shared r (binder_acquire handle p) e),
      ap (λ (q : Process S). q.sent) (done_shared r (binder_acquire handle p) e)
          ∙ append_assoc p.sent (acquire handle ∷ []) (free_buffer r.data0 ∷ [])
          ∙ ap (λ d. p.sent ++ acquire handle ∷ free_buffer d ∷ []) b,
    )
  ]

  claimed :
      (t : Txn) (c : Called S)
      → c.ok ≡ true
      → c.reply_bio ≡ bio_init_from_txn t
      → IsClaimed t c.process.sent (take_handle c)
  unfolding take_handle bio_init_from_txn
  claimed t c o e =
      let got = get_ref c.process.mem (bio_init_from_txn t) in
      let same = get_ref-IsSameMessage c.process.mem (bio_init_from_txn t) in
      let k = claimed_from got.0 t.buffer got.1 c.process same.0 same.1 in
      rw (take_handle, o, e) (ap (λ m. (get_ref m (bio_init_from_txn t)).0) (sym k.0), k.1)

  -- A lookup whose reply comes returns the handle of the reply, and the client holds a reference
  -- on it before it gives the reply back: after the transaction it sends BC_ACQUIRE for a handle
  -- that is not 0, and then BC_FREE_BUFFER for the buffer of the reply, and nothing else. The
  -- message did not overflow its parcel, the answers before the one with the reply, and the
  -- messages around it, ask for nothing, every answer fits the read buffer, and the handlers of
  -- the client leave the read buffer alone.
  pub bp_get_service-IsClaimed :
      (k : Client S) (first : List (List Return)) (before after : List Return) (t : Txn)
      (rest : Answers) (target : ℕ) (name : Option (List ℕ)) (p : Process S)
      → Spares k.readbuf (k.readbuf + 128) k.handlers
      → k.answers
        ≡ map (λ rs. some (answer_bytes rs)) first
          ++ (some (answer_bytes (before ++ (reply t ∷ after))) ∷ rest)
      → (service_message name k p).bio.flags.overflow ≡ false
      → All (λ rs. IsAnswer k.handlers rs × All IsQuiet rs) first
      → IsAnswer k.handlers (before ++ (reply t ∷ after))
      → All IsQuiet before
      → All IsQuiet after
      → Returns (bp_get_service k target name p) (
          IsClaimed t
            (p.sent ++ transaction (call_txn target 2 0 (service_message name k p).bio) ∷ []))
  unfolding bp_get_service
  bp_get_service-IsClaimed k first before after t rest target name p sp e o f a q q' =
      let msg = service_message name k p in
      rw (bp_get_service, e)
        (Returns-bind
          (binder_call k.handlers k.readbuf
            (map (λ rs. some (answer_bytes rs)) first
              ++ (some (answer_bytes (before ++ (reply t ∷ after))) ∷ rest))
            msg.bio (new_parcel k.reply_buffer) target 2 0 (record p { mem = msg.mem }))
          _
          (Delivers k.handlers t
            (send (transaction (call_txn target 2 0 msg.bio) ∷ []) (record p { mem = msg.mem })))
          _
          (binder_call-Delivers k.handlers k.readbuf sp before t after first rest msg.bio
            (new_parcel k.reply_buffer) target 2 0 (record p { mem = msg.mem }) o f a q q')
          (λ c d. subst (λ sent. IsClaimed t sent (take_handle c)) d.2 (claimed t c d.0 d.1)))
