-- ===== src/Exchange/Returns.antt =====
-- What binderParse of system/binder/Binder.cpp does, said of the driver's messages instead of the
-- bytes of the read buffer.
use zeus_os.Base.{
  ℕ, suc, ◌+◌, ◌-◌, ◌*◌, ◌≤◌, ◌<◌, ◌≡◌, refl, ap, subst, inl, inr, Bool-cases, false, List, [], ◌∷◌,
  arith, ltb-false, length, if◌then◌else◌,
}
use zeus_os.Memory.{Mem, load_word}
use zeus_os.Parcel.{Txn, bio_init_from_txn}
use zeus_os.Binder.{
  Outcome, done, fault, blocked, ◌>>=◌, Process, Handlers, Parsing, replied, failed, go, transact,
  take_reply, parse_step, txn_words, read_txn, br_noop, br_transaction_complete, br_increfs,
  br_acquire, br_release, br_decrefs, br_spawn_looper, br_transaction, br_reply, br_dead_binder,
  br_failed_reply, br_dead_reply, txn_size,
}

-- The messages of the driver.
pub data Return : Type 0 where
  noop complete spawn_looper failed_reply dead_reply : Return
  increfs acquire_ref release_ref decrefs : ℕ → ℕ → Return
  transaction reply : Txn → Return
  dead_binder : ℕ → Return

-- A message as the driver writes it.
abbrev pub return_words : Return → List ℕ
return_words noop = br_noop ∷ []
return_words complete = br_transaction_complete ∷ []
return_words spawn_looper = br_spawn_looper ∷ []
return_words failed_reply = br_failed_reply ∷ []
return_words dead_reply = br_dead_reply ∷ []
return_words (increfs p c) = br_increfs ∷ p ∷ c ∷ []
return_words (acquire_ref p c) = br_acquire ∷ p ∷ c ∷ []
return_words (release_ref p c) = br_release ∷ p ∷ c ∷ []
return_words (decrefs p c) = br_decrefs ∷ p ∷ c ∷ []
return_words (transaction t) = br_transaction ∷ txn_words t
return_words (reply t) = br_reply ∷ txn_words t
return_words (dead_binder d) = br_dead_binder ∷ d ∷ []

abbrev pub return_size : Return → ℕ
return_size r = 4 * length (return_words r)

abbrev pub total_size : List Return → ℕ
total_size [] = 0
total_size (r ∷ rs) = return_size r + total_size rs

abbrev pub WordsAt : Mem → ℕ → List ℕ → Type 0
WordsAt m p [] = Unit
WordsAt m p (w ∷ ws) = (load_word m p ≡ w) × WordsAt m (p + 4) ws

abbrev pub Laid : Mem → ℕ → List Return → Type 0
Laid m p [] = Unit
Laid m p (r ∷ rs) = WordsAt m p (return_words r) × Laid m (p + return_size r) rs

-- A value, if a run gives one, has the property.
abbrev pub IfDone {ℓ} : {A : Type ℓ} → Outcome A → (A → Type 0) → Type 0
IfDone (done a) Q = Q a
IfDone fault Q = Unit
IfDone blocked Q = Unit

module _ {S : Type 0} where
  abbrev pub SameBytes : ℕ → ℕ → Process S → Process S → Type 0
  SameBytes lo hi p q = (a : ℕ) → lo ≤ a → a < hi → q.mem a ≡ p.mem a

  abbrev skip : ℕ → Parsing S → Parsing S
  skip n s = record s { ptr = s.ptr + n }

  -- What one message means.
  abbrev pub follow_one : Handlers S → Return → Parsing S → Outcome (Parsing S)
  follow_one h (transaction t) s = do
    p ← transact h t s.process
    done (record s { ptr = s.ptr + 44; process = p })
  follow_one h (reply t) s = done (record s {
    ptr = s.ptr + 44;
    verdict = replied;
    waiting = false;
    answer = if s.waiting then bio_init_from_txn t else s.answer;
  })
  follow_one h (dead_binder d) s = do
    p ← h.death d s.process
    done (record s { ptr = s.ptr + 8; process = p })
  follow_one h spawn_looper s = done (record s {
    ptr = s.ptr + 4;
    process = record (s.process) { threads = suc (s.process.threads) };
  })
  follow_one h failed_reply s = done (record s { ptr = s.ptr + 4; verdict = failed })
  follow_one h dead_reply s = done (record s { ptr = s.ptr + 4; verdict = failed })
  follow_one h noop s = done (skip 4 s)
  follow_one h complete s = done (skip 4 s)
  follow_one h (increfs p c) s = done (skip 12 s)
  follow_one h (acquire_ref p c) s = done (skip 12 s)
  follow_one h (release_ref p c) s = done (skip 12 s)
  follow_one h (decrefs p c) s = done (skip 12 s)

  unfoldable pub follow : Handlers S → List Return → Parsing S → Outcome (Parsing S)
  follow h [] s = done s
  follow h (r ∷ rs) s = follow_one h r s >>= λ s'. follow h rs s'

  -- The handlers leave the bytes of a range alone.
  pub record Spares (lo hi : ℕ) (h : Handlers S) : Type 0 where
    pub transacts : (t : Txn) (p : Process S) → IfDone (transact h t p) (SameBytes lo hi p)
    pub deaths : (d : ℕ) (p : Process S) → IfDone (h.death d p) (SameBytes lo hi p)

move : (m : Mem) (q q' v : ℕ) → q ≡ q' → load_word m q ≡ v → load_word m q' ≡ v
move m q q' v e w = subst (λ x. load_word m x ≡ v) e w

read_txn-words : (m : Mem) (p : ℕ) (t : Txn) → WordsAt m p (txn_words t) → read_txn m p ≡ t
read_txn-words m p t (w0, (w1, (w2, (w3, (w4, (w5, (w6, (w7, (w8, (w9, _)))))))))) = λ i. record {
  target = w0 i;
  txn_cookie = w1 i;
  code = move m _ (p + 8) _ (omega arith) w2 i;
  txn_flags = move m _ (p + 12) _ (omega arith) w3 i;
  sender_pid = move m _ (p + 16) _ (omega arith) w4 i;
  sender_euid = move m _ (p + 20) _ (omega arith) w5 i;
  data_size = move m _ (p + 24) _ (omega arith) w6 i;
  offsets_size = move m _ (p + 28) _ (omega arith) w7 i;
  buffer = move m _ (p + 32) _ (omega arith) w8 i;
  offsets = move m _ (p + 36) _ (omega arith) w9 i;
}

module _ {S : Type 0} where
  bind-go :
      (o : Outcome (Process S)) (f g : Process S → Parsing S)
      → ((p : Process S) → f p ≡ g p)
      → (o >>= λ p. done (go (f p))) ≡ (o >>= (λ p. done (g p)) >>= λ s'. done (go s'))
  bind-go (done p) f g e = ap (λ s. done (go s)) (e p)
  bind-go fault f g e = refl
  bind-go blocked f g e = refl

  -- Two ways to add up the same position.
  at_ptr :
      (s : Parsing S) (q q' : ℕ)
      → q ≡ q'
      → done (go (record s { ptr = q })) ≡ done (go (record s { ptr = q' }))
  at_ptr s q q' e = ap (λ x. done (go (record s { ptr = x }))) e

  take_reply-return :
      (t : Txn) (s : Parsing S)
      → read_txn s.process.mem (s.ptr + 4) ≡ t
      → done (go (take_reply (record s { ptr = s.ptr + 4 })))
        ≡ done (
            go (record s {
              ptr = s.ptr + 44;
              verdict = replied;
              waiting = false;
              answer = if s.waiting then bio_init_from_txn t else s.answer;
            }))
  unfolding take_reply
  take_reply-return t s e = elim (Bool-cases s.waiting) [
    | inl y ↦
        rw (e, y)
          (at_ptr (record s { verdict = replied; waiting = false; answer = bio_init_from_txn t }) _
            _ (omega arith))
    | inr n ↦ rw n (at_ptr (record s { verdict = replied; waiting = false }) _ _ (omega arith))
  ]

module _ {S : Type 0} (h : Handlers S) (end : ℕ) where
  -- One round of the switch on a message that is wholly in the buffer.
  pub parse_step-return :
      (r : Return) (s : Parsing S)
      → WordsAt s.process.mem s.ptr (return_words r)
      → s.ptr + return_size r ≤ end
      → parse_step h (load_word s.process.mem s.ptr) end (record s { ptr = s.ptr + 4 })
        ≡ (follow_one h r s >>= λ s'. done (go s'))
  unfolding parse_step
  parse_step-return noop s w k = rw (w.0, parse_step)
  parse_step-return complete s w k = rw (w.0, parse_step)
  parse_step-return spawn_looper s w k = rw (w.0, parse_step)
  parse_step-return failed_reply s w k = rw (w.0, parse_step)
  parse_step-return dead_reply s w k = rw (w.0, parse_step)
  parse_step-return (increfs p c) s w k = rw (w.0, parse_step) (at_ptr s _ _ (omega arith))
  parse_step-return (acquire_ref p c) s w k = rw (w.0, parse_step) (at_ptr s _ _ (omega arith))
  parse_step-return (release_ref p c) s w k = rw (w.0, parse_step) (at_ptr s _ _ (omega arith))
  parse_step-return (decrefs p c) s w k = rw (w.0, parse_step) (at_ptr s _ _ (omega arith))
  parse_step-return (transaction t) s w k =
      rw
        (
          w.0,
          parse_step,
          ltb-false (end - (s.ptr + 4)) txn_size (omega arith),
          read_txn-words s.process.mem (s.ptr + 4) t w.1,
        )
        (bind-go (transact h t s.process) _ _
          (λ p. ap (λ q. record s { ptr = q; process = p }) (omega arith)))
  parse_step-return (reply t) s w k =
      rw (w.0, parse_step, ltb-false (end - (s.ptr + 4)) txn_size (omega arith))
        (take_reply-return t s (read_txn-words s.process.mem (s.ptr + 4) t w.1))
  parse_step-return (dead_binder d) s w k =
      rw (w.0, parse_step, w.1.0)
        (bind-go (h.death d s.process) _ _
          (λ p. ap (λ q. record s { ptr = q; process = p }) (omega arith)))
