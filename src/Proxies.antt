-- ===== src/Proxies.antt =====
-- The proxies BpServiceManager of frameworks/servicemanager/ServiceManager.cpp and BpInputManager of
-- frameworks/inputmanager/InputManager.cpp: how a client asks for a service.
pub mod Lookup
pub mod Examples
use zeus_os.Base.{ℕ, Option, List, ◌==◌, if◌then◌else◌}
use zeus_os.Parcel.{
  BinderIo, Parcel, new_parcel, put_uint32, put_string8, put_obj, put_fd, get_uint32, get_ref,
}
use zeus_os.Binder.{
  Outcome, done, ◌>>=◌, Process, Handlers, Answers, Called, binder_call, binder_acquire,
  binder_done,
}

-- A client: its own handlers, where binderCall has its read buffer, what the driver answers, and
-- where `new` puts the bytes of the two parcels.
pub record Client (S : Type 0) : Type 0 where
  pub handlers : Handlers S
  pub readbuf : ℕ
  pub answers : Answers
  pub msg_buffer : ℕ
  pub reply_buffer : ℕ

-- -1
abbrev pub minus_one : ℕ
minus_one = 0xffffffff

-- TF_ACCEPT_FDS
abbrev pub accept_fds : ℕ
accept_fds = 16

module _ {S : Type 0} where
  abbrev pub new_message : Client S → Process S → Parcel
  new_message k p = record { mem = p.mem; bio = new_parcel k.msg_buffer }

  -- binderCall with a message that was written into its parcel.
  abbrev pub call_with : Client S → Parcel → ℕ → ℕ → ℕ → Process S → Outcome (Called S)
  call_with k msg target code flags p =
      binder_call k.handlers k.readbuf k.answers msg.bio (new_parcel k.reply_buffer) target code
        flags (record p { mem = msg.mem })

  -- The end of getService: the handle is acquired before the reply is given back.
  unfoldable pub take_handle : Called S → ℕ × Process S
  unfolding binder_acquire
  take_handle c =
      if c.ok
      then (let (handle, r) = get_ref c.process.mem c.reply_bio in
          let q = if handle == 0 then c.process else binder_acquire handle c.process in
          (handle, (binder_done r q).1))
      else (minus_one, c.process)

  -- The end of the other calls.
  unfoldable pub take_status : Called S → ℕ × Process S
  take_status c =
      if c.ok
      then (let (status, r) = get_uint32 c.process.mem c.reply_bio in
          (status, (binder_done r c.process).1))
      else (minus_one, c.process)

  abbrev pub service_message : Option (List ℕ) → Client S → Process S → Parcel
  service_message name k p = put_string8 name (put_uint32 0 (new_message k p))

  -- BpServiceManager::getService
  unfoldable pub bp_get_service :
      Client S → ℕ → Option (List ℕ) → Process S → Outcome (ℕ × Process S)
  bp_get_service k target name p =
      call_with k (service_message name k p) target 2 0 p >>= λ c. done (take_handle c)

  -- BpServiceManager::addService
  unfoldable pub bp_add_service :
      Client S → ℕ → Option (List ℕ) → ℕ → Process S → Outcome (ℕ × Process S)
  bp_add_service k target name ptr p =
      call_with k (put_obj ptr (service_message name k p)) target 3 0 p >>= λ c.
      done (take_status c)

  -- What addListener puts in front of the listener.
  abbrev pub listener_message : ℕ → ℕ → ℕ → Option (List ℕ) → Client S → Process S → Parcel
  listener_message type uid fd name k p =
      put_string8 name
        (put_fd fd (put_uint32 uid (put_uint32 type (put_uint32 0 (new_message k p)))))

  -- BpInputManager::addListener, with the fields of the description that it sends.
  unfoldable pub bp_add_listener :
      Client S → ℕ → ℕ → ℕ → ℕ → Option (List ℕ) → ℕ → Process S → Outcome (ℕ × Process S)
  bp_add_listener k target type uid fd name this p =
      let msg = put_obj this (listener_message type uid fd name k p) in
      call_with k msg target 1 accept_fds p >>= λ c. done (take_status c)

  -- BpInputManager::delListener
  unfoldable pub bp_del_listener : Client S → ℕ → ℕ → Process S → Outcome (ℕ × Process S)
  bp_del_listener k target uid p =
      call_with k (put_uint32 uid (put_uint32 0 (new_message k p))) target 2 0 p >>= λ c.
      done (take_status c)
