-- ===== src/Binder/Session.antt =====
-- A process that uses the driver, and the short operations of system/binder/Binder.cpp.
use zeus_os.Base.{ℕ, ◌-◌, Bool, true, false, List, [], ◌∷◌, ◌++◌, ◌==◌, if◌then◌else◌}
use zeus_os.Memory.{Mem}
use zeus_os.Parcel.{BinderIo, Txn, no_flags}
use zeus_os.Binder.Protocol.{Command, reply, free_buffer, acquire, release, request_death}

-- What running C++ comes to: a value, undefined behaviour, or a wait that the answers given do not
-- end.
pub data Outcome {ℓ} (A : Type ℓ) : Type ℓ where
  done : A → Outcome A
  fault : Outcome A
  blocked : Outcome A

infixl 5 ◌>>=◌
abbrev pub ◌>>=◌ {ℓ κ} : {A : Type ℓ} {B : Type κ} → Outcome A → (A → Outcome B) → Outcome B
done a >>= f = f a
fault >>= f = fault
blocked >>= f = blocked

-- The memory, what binderWrite and binderCall have sent, the threads that were started, and the
-- state of the services in the process.
pub record Process (S : Type 0) : Type 0 where
  pub mem : Mem
  pub sent : List Command
  pub threads : ℕ
  pub service : S

module _ {S : Type 0} where
  -- binderWrite; its callers do not look at the result.
  abbrev pub send : List Command → Process S → Process S
  send cs p = record p { sent = p.sent ++ cs }

  unfoldable pub binder_acquire : ℕ → Process S → Process S
  binder_acquire target p = send (acquire target ∷ []) p

  unfoldable pub binder_release : ℕ → Process S → Process S
  binder_release target p = send (release target ∷ []) p

  -- The cookie is the address of the BinderDeath.
  unfoldable pub binder_link_to_death : ℕ → ℕ → Process S → Process S
  binder_link_to_death target death p = send (request_death target death ∷ []) p

  unfoldable pub binder_done : BinderIo → Process S → BinderIo × Process S
  binder_done r p =
      if r.flags.shared
      then (record r { flags = no_flags }, send (free_buffer r.data0 ∷ []) p)
      else (r, p)

-- The transaction that binderCall sends. The cookie and the sender are left
-- unset by the code, and filled in by the driver; they are 0 here and in the next.
unfoldable pub call_txn : ℕ → ℕ → ℕ → BinderIo → Txn
call_txn target code flags msg = record {
  target = target;
  txn_cookie = 0;
  code = code;
  txn_flags = flags;
  sender_pid = 0;
  sender_euid = 0;
  data_size = msg.data_ptr - msg.data0;
  offsets_size = msg.offs - msg.offs0;
  buffer = msg.data0;
  offsets = msg.offs0;
}

-- The transaction of binderSendReply: TF_STATUS_CODE with the address of the status, or the data.
unfoldable pub reply_txn : ℕ → ℕ → BinderIo → Txn
reply_txn status status_at r =
    if status == 0
    then record {
      target = 0;
      txn_cookie = 0;
      code = 0;
      txn_flags = 0;
      sender_pid = 0;
      sender_euid = 0;
      data_size = r.data_ptr - r.data0;
      offsets_size = r.offs - r.offs0;
      buffer = r.data0;
      offsets = r.offs0;
    }
    else record {
      target = 0;
      txn_cookie = 0;
      code = 0;
      txn_flags = 8;
      sender_pid = 0;
      sender_euid = 0;
      data_size = 4;
      offsets_size = 0;
      buffer = status_at;
      offsets = 0;
    }

module _ {S : Type 0} where
  -- Both commands go in one write.
  unfoldable pub binder_send_reply : BinderIo → ℕ → ℕ → ℕ → Process S → Process S
  unfolding reply_txn
  binder_send_reply r buffer_to_free status status_at p =
      send (free_buffer buffer_to_free ∷ reply (reply_txn status status_at r) ∷ []) p

-- A run ends with a value that has the property.
abbrev pub Returns {ℓ} : {A : Type ℓ} → Outcome A → (A → Type 0) → Type 0
Returns (done a) Q = Q a
Returns fault Q = ⊥
Returns blocked Q = ⊥

-- A run that does not wait has the property, unless its behaviour is undefined.
abbrev pub UnlessFault {ℓ} : {A : Type ℓ} → Outcome A → (A → Type 0) → Type 0
UnlessFault (done a) Q = Q a
UnlessFault fault Q = Unit
UnlessFault blocked Q = ⊥

pub UnlessFault-bind {ℓ κ} :
    {A : Type ℓ} {B : Type κ} (o : Outcome A) (f : A → Outcome B) (Q : A → Type 0) (R : B → Type 0)
    → UnlessFault o Q
    → ((a : A) → Q a → UnlessFault (f a) R)
    → UnlessFault (o >>= f) R
UnlessFault-bind (done a) f Q R h k = k a h
UnlessFault-bind fault f Q R h k = tt
UnlessFault-bind blocked f Q R h k = absurd h

pub UnlessFault-weaken {ℓ} :
    {A : Type ℓ} (o : Outcome A) (Q R : A → Type 0)
    → UnlessFault o Q
    → ((a : A) → Q a → R a)
    → UnlessFault o R
UnlessFault-weaken (done a) Q R h k = k a h
UnlessFault-weaken fault Q R h k = tt
UnlessFault-weaken blocked Q R h k = absurd h

pub UnlessFault-if {ℓ} :
    {A : Type ℓ} (b : Bool) (o o' : Outcome A) (Q : A → Type 0)
    → UnlessFault o Q
    → UnlessFault o' Q
    → UnlessFault (if b then o else o') Q
UnlessFault-if true o o' Q h k = h
UnlessFault-if false o o' Q h k = k

pub Returns-bind {ℓ κ} :
    {A : Type ℓ} {B : Type κ} (o : Outcome A) (f : A → Outcome B) (Q : A → Type 0) (R : B → Type 0)
    → Returns o Q
    → ((a : A) → Q a → Returns (f a) R)
    → Returns (o >>= f) R
Returns-bind (done a) f Q R h k = k a h
Returns-bind fault f Q R h k = absurd h
Returns-bind blocked f Q R h k = absurd h

pub Returns-weaken {ℓ} :
    {A : Type ℓ} (o : Outcome A) (Q R : A → Type 0)
    → Returns o Q
    → ((a : A) → Q a → R a)
    → Returns o R
Returns-weaken (done a) Q R h k = k a h
Returns-weaken fault Q R h k = absurd h
Returns-weaken blocked Q R h k = absurd h
