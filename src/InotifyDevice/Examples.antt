-- ===== src/InotifyDevice/Examples.antt =====
-- A watcher of frameworks/inputmanager/InotifyDevice.cpp on a small tree of directories.
use zeus_os.Base.{
  ℕ, zero, suc, ◌≤◌, ◌≡◌, refl, ◌⊎◌, ◌↔◌, inl, inr, true, false, Bool-cases, none, some, List, [],
  ◌∷◌, ◌++◌, map, arith, if◌then◌else◌, length, get_elem?, ltb,
}
use zeus_os.Memory.{Mem, store, load, load_word, word_bytes}
use zeus_os.Binder.{Returns}
use zeus_os.EventDevice.{CookEvent, Timeval}
use zeus_os.ServiceManager.{bytes_eq}
use zeus_os.ServiceManager.Nodes.{bytes_eq_iff}
use zeus_os.InputReader.{Device, find_name}
use zeus_os.FileSystem.{
  FilePath, FileSystem, directory, char_device, is_dir, is_char_device, entry_path, starts_with,
}
use zeus_os.InotifyDevice.{
  DirectoryPathDesc, Watching, Inotify, Surroundings, find_wd, find_path, add_watch_directory_r,
  del_watch_directory_r, walk_fuel, process_create, process_remove, process, notice,
  add_device_type, del_device_type,
}
use zeus_os.InotifyDevice.Trees.{Reaches, IsShallow, IsWatched}
use zeus_os.InotifyDevice.Walks.{add_watch_directory_r-Reaches}
use zeus_os.InotifyDevice.Repeats.{copies, add_watch_directory_r_repeats}
use zeus_os.InotifyDevice.Unwatching.{del_watch_directory_r-add_watch_directory_r}
use zeus_os.InotifyDevice.Events.{InotifyEvent, IsAt, follow_events, start, process-follow_events}
use zeus_os.InotifyDevice.Notices.{AreOpen}
use zeus_os.InotifyDevice.Processing.{process_returns}
use zeus_os.InotifyDevice.Hotplug.{IsAttached, IsDetached, process_remove-process_create}

-- "/d", with a directory "/d/s" and a device "/d/event".
abbrev root : FilePath
root = 47 ∷ 100 ∷ []

abbrev sub : FilePath
sub = 47 ∷ 100 ∷ 47 ∷ 115 ∷ []

abbrev event_path : FilePath
event_path = 47 ∷ 100 ∷ 47 ∷ 101 ∷ 118 ∷ 101 ∷ 110 ∷ 116 ∷ []

abbrev event_name : FilePath
event_name = 101 ∷ 118 ∷ 101 ∷ 110 ∷ 116 ∷ []

abbrev files : FileSystem
files = record {
  stat = λ q.
      if bytes_eq q root
      then some directory
      else if bytes_eq q sub
      then some directory
      else if bytes_eq q event_path
      then some char_device
      else none;
  opendir = λ held q.
      if bytes_eq q root then some ((46 ∷ []) ∷ (115 ∷ []) ∷ event_name ∷ []) else some [];
  open_rdwr = λ q. some 9;
  add_watch = λ q. if bytes_eq q root then some 1 else some 2;
}

files-IsShallow : IsShallow files
unfolding is_dir
files-IsShallow q d = elim (Bool-cases (bytes_eq q root)) [
  | inl y ↦ rw ((bytes_eq_iff q root).0 y) (omega arith)
  | inr n ↦ elim (Bool-cases (bytes_eq q sub)) [
    | inl y ↦ rw ((bytes_eq_iff q sub).0 y) (omega arith)
    | inr m ↦ elim (Bool-cases (bytes_eq q event_path)) [
      | inl y ↦ (let no : false ≡ true = rw (is_dir, n, m, y) at d in cc)
      | inr k ↦ (let no : false ≡ true = rw (is_dir, n, m, k) at d in cc)
    ]
  ]
]

files-AreOpen : AreOpen files
files-AreOpen q c e = cc

abbrev nothing : Watching
nothing = record { descs = []; removed = [] }

add_watch_directory_r-Reaches_example :
    Returns (add_watch_directory_r walk_fuel files 0 root nothing) (λ x.
      (target : FilePath)
      → IsWatched target x.1.descs ↔ (IsWatched target [] ⊎ Reaches files 0 root target))
add_watch_directory_r-Reaches_example =
    add_watch_directory_r-Reaches files root nothing files-IsShallow (omega arith)

del_watch_directory_r-add_watch_directory_r_example :
    Returns (add_watch_directory_r walk_fuel files 0 root nothing) (λ x.
      Returns (del_watch_directory_r walk_fuel files 0 root x.1) (λ y.
        (y.1.descs ≡ [])
        × (added : List DirectoryPathDesc) × (x.1.descs ≡ added)
        × (y.1.removed ≡ map (λ d. d.wd) added)))
unfolding find_path
del_watch_directory_r-add_watch_directory_r_example =
    del_watch_directory_r-add_watch_directory_r files root nothing files-IsShallow (omega arith)
      (λ t r. refl) tt

-- A directory with the entry "a" beside "." and "..", all of them directories, with descriptors for three streams, and a path of
-- 255 characters.
abbrev deep : FileSystem
deep = record {
  stat = λ q. some directory;
  opendir =
      λ held q. if ltb held 3 then some ((46 ∷ []) ∷ (97 ∷ []) ∷ (46 ∷ 46 ∷ []) ∷ []) else none;
  open_rdwr = λ q. none;
  add_watch = λ q. some 1;
}

abbrev repeated : ℕ → FilePath
repeated zero = []
repeated (suc n) = 47 ∷ repeated n

add_watch_directory_r_repeats_example :
    Returns
      (add_watch_directory_r walk_fuel deep 0 (repeated 255) nothing)
      (λ x. x.1.descs ≡ copies 4 (record { wd = 1; path = repeated 255 }))
unfolding is_dir starts_with
add_watch_directory_r_repeats_example =
    add_watch_directory_r_repeats deep (repeated 255) (97 ∷ []) ((46 ∷ []) ∷ [])
      ((46 ∷ 46 ∷ []) ∷ []) 1 3 refl refl refl (refl, tt) (refl, tt) refl (λ held l. ground arith)
      refl walk_fuel nothing (omega arith)

abbrev blank : CookEvent
blank = record {
  time = record { seconds = 0; microseconds = 0 };
  file_path = 0;
  type = 0;
  x = 0;
  y = 0;
  key = 0;
  pressure = 0;
  track_id = 0;
  touch_major = 0;
}

-- "/d" is watched, and there are no devices yet.
abbrev watcher : Inotify
watcher = record {
  watching = record { descs = record { wd = 1; path = root } ∷ []; removed = [] };
  reader = record { devices = []; watched = 3 ∷ []; closed = [] };
}

abbrev noon : Timeval
noon = record { seconds = 12; microseconds = 0 }

process_remove-process_create_example :
    (let device : Device = record { device_name = event_path; fd = 9 } in
      Returns (process_create files 700 noon 1 event_name 0 (blank ∷ []) watcher) (λ x.
        (x.ret ≡ 1)
        × (get_elem? x.events 0 ≡ some (notice add_device_type 700 noon blank))
        × IsAttached device watcher.reader x.state.reader
        × Returns (process_remove 700 noon 1 event_name 0 x.events x.state) (λ y.
          (y.ret ≡ 1)
          × (get_elem? y.events 0 ≡ some (notice del_device_type 700 noon blank))
          × IsDetached device watcher.reader y.state.reader)))
unfolding find_wd is_char_device bytes_eq entry_path starts_with find_name
process_remove-process_create_example =
    process_remove-process_create files 700 noon noon 1 event_name 0 (blank ∷ []) blank watcher
      (record { wd = 1; path = root }) 9 refl refl refl refl refl (omega arith) refl

-- The directory "/d/s" has appeared.
abbrev appeared : InotifyEvent
appeared = record { wd = 1; mask = 0x40000100; len = 16; name = 115 ∷ [] }

abbrev buffer : Mem
buffer =
    store (λ a. 0) 0
      (word_bytes 1 ++ word_bytes 0x40000100 ++ word_bytes 0 ++ word_bytes 16 ++ 115 ∷ [])

buffer-IsAt : IsAt buffer 0 appeared
unfolding load_word load store word_bytes
buffer-IsAt = record {
  wd_word = refl;
  mask_word = refl;
  len_word = refl;
  named = inr (
    record { spelled = refl; nonzero = ((λ e. absurd (omega arith)), tt); ended = refl },
    omega arith,
  );
}

abbrev around : Surroundings
around = record { files = files; str_tmp = 700; clock = λ i. noon }

process-follow_events_example :
    process around (some 32) 0 buffer (blank ∷ []) watcher
    ≡ follow_events around (appeared ∷ []) (start (blank ∷ []) watcher)
process-follow_events_example =
    process-follow_events around 0 buffer appeared [] (blank ∷ []) watcher (omega arith)
      (buffer-IsAt, tt)

process_returns_example :
    Returns
      (process around (some 32) 0 buffer (blank ∷ []) watcher)
      (λ n. (n.ret ≤ 1) × (length n.events ≡ 1))
unfolding find_wd
process_returns_example =
    process_returns around 0 buffer appeared [] (blank ∷ []) watcher files-IsShallow files-AreOpen
      (omega arith) (buffer-IsAt, tt) (omega arith) (inr (λ e. cc), tt)
