-- ===== src/Binder/Protocol.antt =====
-- The command words of include/binder/Binder.h, on the 32-bit target, and the commands that
-- system/binder/Binder.cpp sends. Every command is a sequence of 32-bit words.
use zeus_os.Base.{ℕ, ◌+◌, ◌*◌, ◌^◌, List, [], ◌∷◌}
use zeus_os.Parcel.{Txn}

-- MY_IOC: the four fields do not overlap, so the `|` of the macro is a sum.
abbrev pub ioc : ℕ → ℕ → ℕ → ℕ → ℕ
ioc dir type nr size = dir * 2 ^ 30 + size * 2 ^ 16 + type * 2 ^ 8 + nr

-- MY_IO, MY_IOR and MY_IOW.
abbrev pub io : ℕ → ℕ → ℕ
io type nr = ioc 0 type nr 0

abbrev pub ior : ℕ → ℕ → ℕ → ℕ
ior type nr size = ioc 2 type nr size

abbrev pub iow : ℕ → ℕ → ℕ → ℕ
iow type nr size = ioc 1 type nr size

-- sizeof(struct binder_transaction_data) and sizeof(struct binder_ptr_cookie)
abbrev pub txn_size : ℕ
txn_size = 40

abbrev pub ptr_cookie_size : ℕ
ptr_cookie_size = 8

abbrev pub br_error : ℕ
br_error = ior b'r' 0 4

abbrev pub br_ok : ℕ
br_ok = io b'r' 1

abbrev pub br_transaction : ℕ
br_transaction = ior b'r' 2 txn_size

abbrev pub br_reply : ℕ
br_reply = ior b'r' 3 txn_size

abbrev pub br_acquire_result : ℕ
br_acquire_result = ior b'r' 4 4

abbrev pub br_dead_reply : ℕ
br_dead_reply = io b'r' 5

abbrev pub br_transaction_complete : ℕ
br_transaction_complete = io b'r' 6

abbrev pub br_increfs : ℕ
br_increfs = ior b'r' 7 ptr_cookie_size

abbrev pub br_acquire : ℕ
br_acquire = ior b'r' 8 ptr_cookie_size

abbrev pub br_release : ℕ
br_release = ior b'r' 9 ptr_cookie_size

abbrev pub br_decrefs : ℕ
br_decrefs = ior b'r' 10 ptr_cookie_size

abbrev pub br_noop : ℕ
br_noop = io b'r' 12

abbrev pub br_spawn_looper : ℕ
br_spawn_looper = io b'r' 13

abbrev pub br_finished : ℕ
br_finished = io b'r' 14

abbrev pub br_dead_binder : ℕ
br_dead_binder = ior b'r' 15 4

abbrev pub br_failed_reply : ℕ
br_failed_reply = io b'r' 17

abbrev pub bc_transaction : ℕ
bc_transaction = iow b'c' 0 txn_size

abbrev pub bc_reply : ℕ
bc_reply = iow b'c' 1 txn_size

abbrev pub bc_free_buffer : ℕ
bc_free_buffer = iow b'c' 3 4

abbrev pub bc_acquire : ℕ
bc_acquire = iow b'c' 5 4

abbrev pub bc_release : ℕ
bc_release = iow b'c' 6 4

abbrev pub bc_register_looper : ℕ
bc_register_looper = io b'c' 11

abbrev pub bc_enter_looper : ℕ
bc_enter_looper = io b'c' 12

abbrev pub bc_request_death_notification : ℕ
bc_request_death_notification = iow b'c' 14 8

-- What the library writes to the driver.
pub data Command : Type 0 where
  transaction reply : Txn → Command
  free_buffer acquire release : ℕ → Command
  register_looper enter_looper : Command
  request_death : ℕ → ℕ → Command

abbrev pub command_code : Command → ℕ
command_code (transaction t) = bc_transaction
command_code (reply t) = bc_reply
command_code (free_buffer p) = bc_free_buffer
command_code (acquire h) = bc_acquire
command_code (release h) = bc_release
command_code register_looper = bc_register_looper
command_code enter_looper = bc_enter_looper
command_code (request_death h c) = bc_request_death_notification

abbrev pub txn_words : Txn → List ℕ
txn_words t =
    t.target ∷ t.txn_cookie ∷ t.code ∷ t.txn_flags ∷ t.sender_pid ∷ t.sender_euid ∷ t.data_size
    ∷ t.offsets_size ∷ t.buffer ∷ t.offsets ∷ []

-- The words of the packed structs `writebuf`, `data` and `cmd` that hold the commands.
unfoldable pub command_words : Command → List ℕ
command_words (transaction t) = bc_transaction ∷ txn_words t
command_words (reply t) = bc_reply ∷ txn_words t
command_words (free_buffer p) = bc_free_buffer ∷ p ∷ []
command_words (acquire h) = bc_acquire ∷ h ∷ []
command_words (release h) = bc_release ∷ h ∷ []
command_words register_looper = bc_register_looper ∷ []
command_words enter_looper = bc_enter_looper ∷ []
command_words (request_death h c) = bc_request_death_notification ∷ h ∷ c ∷ []
