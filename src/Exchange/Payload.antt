-- ===== src/Exchange/Payload.antt =====
-- The commands that system/binder/Binder.cpp writes, in the format of include/binder/Binder.h.
use zeus_os.Base.{ℕ, ◌+◌, ◌*◌, ◌/◌, ◌%◌, ◌^◌, ◌≡◌, refl, some, length, get_elem?}
use zeus_os.Binder.{
  Command, transaction, reply, free_buffer, acquire, release, register_looper, enter_looper,
  request_death, command_code, command_words,
}

-- MY_IOC_SIZE: the bytes that follow a command word.
abbrev pub ioc_size : ℕ → ℕ
ioc_size nr = nr / 2 ^ 16 % 2 ^ 14

-- Every command that the library sends begins with its code, and is followed by exactly as many
-- bytes as the size field of the code says, which is how the driver finds the next command.
pub command_words_size :
    (c : Command)
    → (get_elem? (command_words c) 0 ≡ some (command_code c))
      × (4 * length (command_words c) ≡ 4 + ioc_size (command_code c))
unfolding command_words
command_words_size (transaction t) = (refl, refl)
command_words_size (reply t) = (refl, refl)
command_words_size (free_buffer p) = (refl, refl)
command_words_size (acquire h) = (refl, refl)
command_words_size (release h) = (refl, refl)
command_words_size register_looper = (refl, refl)
command_words_size enter_looper = (refl, refl)
command_words_size (request_death h c) = (refl, refl)
