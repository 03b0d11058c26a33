-- ===== src/InotifyDevice.antt =====
-- The watcher of directories, frameworks/inputmanager/InotifyDevice.cpp: its list of watched
-- directories, and what it makes of the events of inotify.
pub mod Trees
pub mod Walks
pub mod Repeats
pub mod Searches
pub mod Unwatching
pub mod Events
pub mod Notices
pub mod Processing
pub mod Hotplug
mod Examples
use zeus_os.Base.{
  ℕ, zero, suc, ◌+◌, ◌-◌, ◌%◌, ◌^◌, Bool, true, false, Option, none, some, List, [], ◌∷◌, ◌++◌, ltb,
  ◌||◌, leb, ◌==◌, if◌then◌else◌,
}
use zeus_os.Memory.{Mem, load, load_word}
use zeus_os.Binder.{Outcome, done, fault, blocked, ◌>>=◌}
use zeus_os.ServiceManager.{bytes_eq, strlen}
use zeus_os.InputManager.{shares_bit}
use zeus_os.EventDevice.{Timeval, CookEvent, write_event}
use zeus_os.InputReader.{Device, Reader, add_device, del_device}
use zeus_os.FileSystem.{
  FilePath, FileSystem, is_dir, is_reg_file, is_char_device, is_blk_device, entry_path, starts_with,
  is_hidden, event_prefix,
}

-- struct DirectoryPathDesc
pub record DirectoryPathDesc : Type 0 where
  pub wd : ℕ
  pub path : FilePath

-- directoryPathDescList, and the watches that were handed to inotify_rm_watch.
pub record Watching : Type 0 where
  pub descs : List DirectoryPathDesc
  pub removed : List ℕ

-- -1
abbrev pub minus_one : ℕ
minus_one = 0xffffffff

abbrev pub watch : ℕ → FilePath → Watching → Watching
watch wd path w = record w { descs = w.descs ++ record { wd = wd; path = path } ∷ [] }

unfoldable pub add_watch_directory : FileSystem → FilePath → Watching → ℕ × Watching
add_watch_directory fs path w = elim (fs.add_watch path) [
  | none ↦ (minus_one, w)
  | some wd ↦ (0, watch wd path w)
]

-- The search of delWatchDirectory and delWatchDirectory_R, and the list without what it finds.
unfoldable pub find_path : FilePath → List DirectoryPathDesc → Option DirectoryPathDesc
find_path path [] = none
find_path path (d ∷ ds) = if bytes_eq d.path path then some d else find_path path ds

unfoldable pub remove_path : FilePath → List DirectoryPathDesc → List DirectoryPathDesc
remove_path path [] = []
remove_path path (d ∷ ds) = if bytes_eq d.path path then ds else d ∷ remove_path path ds

abbrev pub unwatch : DirectoryPathDesc → FilePath → Watching → Watching
unwatch d path w = record { descs = remove_path path w.descs; removed = w.removed ++ d.wd ∷ [] }

unfoldable pub del_watch_directory : FilePath → Watching → ℕ × Watching
del_watch_directory path w = elim (find_path path w.descs) [
  | none ↦ (0, w)
  | some d ↦ (0, unwatch d path w)
]

-- The loop over the entries of a directory, with the recursive call as an argument.
unfoldable pub each_directory :
    (FilePath → Watching → Outcome (ℕ × Watching))
    → FileSystem
    → FilePath
    → List FilePath
    → Watching
    → Outcome Watching
each_directory recur fs path [] w = done w
each_directory recur fs path (name ∷ names) w =
    let skipped = each_directory recur fs path names w in
    if is_hidden name
    then skipped
    else if is_dir fs (entry_path path name)
    then (recur (entry_path path name) w >>= λ x. each_directory recur fs path names x.1)
    else skipped

-- The end of both walks: opendir, and the loop if it succeeds.
unfoldable pub walk_entries :
    (FilePath → Watching → Outcome (ℕ × Watching))
    → FileSystem
    → ℕ
    → FilePath
    → Watching
    → Outcome (ℕ × Watching)
walk_entries recur fs held path w = elim (fs.opendir held path) [
  | none ↦ done (minus_one, w)
  | some names ↦ each_directory recur fs path names w >>= λ w'. done (0, w')
]

-- The walks, on fuel; a walk that goes deeper is `blocked`. A directory is closed behind the loop over
-- its entries, so that each level holds one more open: `held` are those of the levels above.
unfoldable pub add_watch_directory_r :
    ℕ → FileSystem → ℕ → FilePath → Watching → Outcome (ℕ × Watching)
add_watch_directory_r zero fs held path w = blocked
add_watch_directory_r (suc f) fs held path w = elim (fs.add_watch path) [
  | none ↦ done (minus_one, w)
  | some wd ↦ walk_entries (add_watch_directory_r f fs (suc held)) fs held path (watch wd path w)
]

unfoldable pub del_watch_directory_r :
    ℕ → FileSystem → ℕ → FilePath → Watching → Outcome (ℕ × Watching)
del_watch_directory_r zero fs held path w = blocked
del_watch_directory_r (suc f) fs held path w = elim (find_path path w.descs) [
  | none ↦ done (0, w)
  | some d ↦ walk_entries (del_watch_directory_r f fs (suc held)) fs held path (unwatch d path w)
]

-- The watcher and the reader whose devices it adds and removes.
pub record Inotify : Type 0 where
  pub watching : Watching
  pub reader : Reader

-- What processCreate and processRemove return, with the array and the state as they leave them.
pub record Noticed : Type 0 where
  pub ret : ℕ
  pub events : List CookEvent
  pub state : Inotify

abbrev pub add_file : ℕ
add_file = 4

abbrev pub del_file : ℕ
del_file = 8

abbrev pub add_dir : ℕ
add_dir = 16

abbrev pub del_dir : ℕ
del_dir = 32

abbrev pub add_device_type : ℕ
add_device_type = 64

abbrev pub del_device_type : ℕ
del_device_type = 128

-- The search for a watch.
unfoldable pub find_wd : ℕ → List DirectoryPathDesc → Option DirectoryPathDesc
find_wd wd [] = none
find_wd wd (d ∷ ds) = if d.wd == wd then some d else find_wd wd ds

-- An event about the file whose path is in `strTmp`, at that address.
abbrev pub notice : ℕ → ℕ → Timeval → CookEvent → CookEvent
notice type str_tmp now c = record c { type = type; time = now; file_path = str_tmp }

-- The paths of `strTmp` are short, so that a walk over them needs no more; see Walks.
abbrev pub walk_fuel : ℕ
walk_fuel = 256

-- The branch of a character device, behind the event that it fills in.
unfoldable pub attach_device : FileSystem → FilePath → FilePath → Inotify → ℕ × Inotify
attach_device fs name path s =
    if starts_with event_prefix name
    then (elim (fs.open_rdwr path) [
      | none ↦ (minus_one, s)
      | some fd ↦
          (1, record s { reader = add_device (record { device_name = path; fd = fd }) (s.reader) })
    ])
    else (1, s)

-- `cev` is the event at an index of the array.
unfoldable pub process_create :
    FileSystem → ℕ → Timeval → ℕ → FilePath → ℕ → List CookEvent → Inotify → Outcome Noticed
process_create fs str_tmp now wd name cev events s = elim (find_wd wd s.watching.descs) [
  | none ↦ fault
  | some d ↦
      let path = entry_path d.path name in
      let fill : ℕ → Outcome (List CookEvent) =
        λ type. write_event cev (notice type str_tmp now) events in
      if is_dir fs path
      then (do
        es ← fill add_dir
        x ← add_watch_directory_r walk_fuel fs 0 path s.watching
        done (record { ret = 1; events = es; state = record s { watching = x.1 } }))
      else if is_reg_file fs path
      then (do es ← fill add_file; done (record { ret = 1; events = es; state = s }))
      else if is_char_device fs path
      then (do
        es ← fill add_device_type
        let x = attach_device fs name path s
        done (record { ret = x.0; events = es; state = x.1 }))
      else if is_blk_device fs path
      then (do es ← fill add_device_type; done (record { ret = 1; events = es; state = s }))
      else done (record { ret = 0; events = events; state = s })
]

-- "/dev/"
abbrev pub dev_prefix : List ℕ
dev_prefix = 47 ∷ 100 ∷ 101 ∷ 118 ∷ 47 ∷ []

-- The type of the event; a file and a directory are left for the listener to tell apart.
abbrev pub removed_type : ℕ → FilePath → ℕ
removed_type deleted path =
    if deleted == 0 || starts_with dev_prefix path then del_device_type else del_file + del_dir

unfoldable pub process_remove :
    ℕ → Timeval → ℕ → FilePath → ℕ → List CookEvent → Inotify → Outcome Noticed
process_remove str_tmp now wd name cev events s = elim (find_wd wd s.watching.descs) [
  | none ↦ fault
  | some d ↦
      let path = entry_path d.path name in
      let (deleted, reader) = del_device path s.reader in
      write_event cev (notice (removed_type deleted path) str_tmp now) events >>= λ es.
      done (record { ret = 1; events = es; state = record s { reader = reader } })
]

-- What surrounds one call of `process`: the results of the system calls, the address of `strTmp`,
-- and the clock, read for the event at an index.
pub record Surroundings : Type 0 where
  pub files : FileSystem
  pub str_tmp : ℕ
  pub clock : ℕ → Timeval

-- IN_CREATE
abbrev pub in_create : ℕ
in_create = 0x100

-- sizeof(struct inotify_event), in front of the name.
abbrev pub header_size : ℕ
header_size = 16

abbrev pub buffer_size : ℕ
buffer_size = 512

-- `iRet` starts at 0 and the events go to `cookEvent + iRet`.
unfoldable pub notice_event : Surroundings → ℕ → ℕ → FilePath → Noticed → Outcome Noticed
notice_event env wd mask name n =
    (if shares_bit 32 mask in_create
      then process_create env.files env.str_tmp (env.clock n.ret) wd name n.ret n.events n.state
      else process_remove env.str_tmp (env.clock n.ret) wd name n.ret n.events n.state)
    >>= λ x. done (record x { ret = (n.ret + x.ret) % 2 ^ 32 })

-- The event at `pos`; one without a name is passed over.
unfoldable pub read_event : Surroundings → Mem → ℕ → Noticed → Outcome Noticed
read_event env buf pos n =
    if load_word buf (pos + 12) == 0
    then done n
    else elim (strlen (buffer_size - (pos + header_size)) buf (pos + header_size)) [
      | none ↦ fault
      | some len ↦
          notice_event env (load_word buf pos) (load_word buf (pos + 4))
            (load buf (pos + header_size) len) n
    ]

-- `event_size`
unfoldable pub event_size : Mem → ℕ → ℕ
event_size buf pos = (header_size + load_word buf (pos + 12)) % 2 ^ 32

-- The loop over `res` bytes, on fuel: one that goes on beyond it is `blocked`. A size that is
-- negative as an int takes `event_pos` out of the buffer.
unfoldable pub process_events : ℕ → Surroundings → Mem → ℕ → ℕ → Noticed → Outcome Noticed
process_events zero env buf pos res n = blocked
process_events (suc f) env buf pos res n = elim (leb header_size res) [
  | false ↦ done n
  | true ↦ read_event env buf pos n >>= λ n'. elim (ltb (event_size buf pos) (2 ^ 31)) [
    | false ↦ fault
    | true ↦ process_events f env buf (pos + event_size buf pos) (res - event_size buf pos) n'
  ]
]

-- The result of read is `none` for -1; `errno` is looked at after a short read too.
unfoldable pub process :
    Surroundings → Option ℕ → ℕ → Mem → List CookEvent → Inotify → Outcome Noticed
process env res errno buf events s =
    let refused = (if errno == 4 then 0 else minus_one) in
    elim res [
      | none ↦ done (record { ret = refused; events = events; state = s })
      | some bytes ↦
          if ltb bytes header_size
          then done (record { ret = refused; events = events; state = s })
          else process_events (suc buffer_size) env buf 0 bytes
              (record { ret = 0; events = events; state = s })
    ]
