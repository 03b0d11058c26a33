-- ===== src/InotifyDevice/Hotplug.antt =====
-- An input device that comes and goes: processCreate and processRemove of
-- frameworks/inputmanager/InotifyDevice.cpp with the list of frameworks/inputmanager/InputReader.cpp.
use zeus_os.Base.{
  ℕ, ◌<◌, ◌≡◌, refl, true, false, Option, none, some, List, [], ◌∷◌, ◌++◌, arith, length, get_elem?,
}
use zeus_os.Binder.{Returns, Returns-bind}
use zeus_os.EventDevice.{Timeval, CookEvent, write_event}
use zeus_os.ServiceManager.Nodes.{bytes_eq_iff}
use zeus_os.InputReader.{Device, Reader, add_device, del_device, find_name, remove_name, without}
use zeus_os.InputReader.Devices.{find_name-append}
use zeus_os.InputReader.Hangups.{count, count-append, count-without}
use zeus_os.FileSystem.{
  FilePath, FileSystem, FileKind, regular, directory, char_device, blk_device, other, is_dir,
  is_reg_file, is_char_device, entry_path, starts_with, event_prefix,
}
use zeus_os.InotifyDevice.{
  DirectoryPathDesc, Inotify, find_wd, attach_device, process_create, process_remove, notice,
  add_device_type, del_device_type,
}
use zeus_os.InotifyDevice.Notices.{IsWritten, write_event-IsWritten}

char_kind :
    (k : Option FileKind)
    → (elim k [ some char_device ↦ true | _ ↦ false ]) ≡ true
    → k ≡ some char_device
char_kind none e = cc
char_kind (some regular) e = cc
char_kind (some directory) e = cc
char_kind (some char_device) e = refl
char_kind (some blk_device) e = cc
char_kind (some other) e = cc

char_device-kinds :
    (fs : FileSystem) (path : FilePath)
    → is_char_device fs path ≡ true
    → (is_dir fs path ≡ false) × (is_reg_file fs path ≡ false)
unfolding is_dir is_reg_file is_char_device
char_device-kinds fs path e = rw (is_dir, is_reg_file, char_kind (fs.stat path) e) (refl, refl)

remove_name-append :
    (path : FilePath) (ds : List Device) (d : Device)
    → d.device_name ≡ path
    → find_name path ds ≡ none
    → remove_name path (ds ++ d ∷ []) ≡ ds
unfolding find_name remove_name
remove_name-append path [] d e n = rw ((bytes_eq_iff d.device_name path).1 e) refl
remove_name-append path (x ∷ ds) d e n = ground (arith, remove_name-append path ds d e)

-- The device in the list of a reader, watched once.
abbrev pub IsAttached : Device → Reader → Reader → Type 0
IsAttached d r q =
    (find_name d.device_name q.devices ≡ some d)
    × (count d.fd q.watched ≡ 1)
    × (q.closed ≡ r.closed)

-- The list of a reader again, with the device's descriptor unwatched and closed.
abbrev pub IsDetached : Device → Reader → Reader → Type 0
IsDetached d r q =
    (q.devices ≡ r.devices) × (count d.fd q.watched ≡ 0) × (q.closed ≡ r.closed ++ d.fd ∷ [])

add_device-IsAttached :
    (d : Device) (r : Reader)
    → find_name d.device_name r.devices ≡ none
    → IsAttached d r (add_device d r)
unfolding add_device
add_device-IsAttached d r n = (
  rw
      (
        find_name-append d.device_name r.devices d,
        n,
        (bytes_eq_iff d.device_name d.device_name).1 refl,
      )
      refl,
  ground (arith, count-append d.fd (without d.fd r.watched) d.fd, count-without d.fd r.watched),
  refl,
)

del_device-IsDetached :
    (d : Device) (r : Reader)
    → find_name d.device_name r.devices ≡ none
    → ((del_device d.device_name (add_device d r)).0 ≡ 0)
      × IsDetached d r (del_device d.device_name (add_device d r)).1
unfolding del_device add_device
del_device-IsDetached d r n =
    rw
      (
        del_device,
        (add_device-IsAttached d r n).0,
        remove_name-append d.device_name r.devices d refl n,
      )
      (refl, (refl, count-without d.fd _, refl))

attach_device-opened :
    (fs : FileSystem) (name path : FilePath) (fd : ℕ) (s : Inotify)
    → starts_with event_prefix name ≡ true
    → fs.open_rdwr path ≡ some fd
    → attach_device fs name path s
      ≡ (1, record s { reader = add_device (record { device_name = path; fd = fd }) (s.reader) })
unfolding attach_device
attach_device-opened fs name path fd s p o = rw (p, attach_device, o) refl

remove_attached :
    (str_tmp : ℕ) (later : Timeval) (wd : ℕ) (name : FilePath) (cev : ℕ) (es : List CookEvent)
    (c : CookEvent) (s : Inotify) (d : DirectoryPathDesc) (fd : ℕ)
    → find_wd wd s.watching.descs ≡ some d
    → find_name (entry_path d.path name) s.reader.devices ≡ none
    → cev < length es
    → get_elem? es cev ≡ some c
    → (let device : Device = record { device_name = entry_path d.path name; fd = fd } in
        Returns
          (process_remove str_tmp later wd name cev es
            (record s { reader = add_device device (s.reader) }))
          (λ y.
            (y.ret ≡ 1)
            × (get_elem? y.events cev ≡ some (notice del_device_type str_tmp later c))
            × IsDetached device s.reader y.state.reader))
unfolding process_remove
remove_attached str_tmp later wd name cev es c s d fd w n l at =
    let device : Device = record { device_name = entry_path d.path name; fd = fd } in
    let (zeroed, detached) = del_device-IsDetached device s.reader n in
    rw (w, process_remove, zeroed)
      (Returns-bind (write_event cev (notice del_device_type str_tmp later) es) _
        (IsWritten cev (notice del_device_type str_tmp later) es) _
        (write_event-IsWritten cev _ es l) (λ ys y. (refl, y.at c at, detached)))

-- A character device whose name begins with "event", in a directory that is watched, is added to the
-- devices and watched when it appears, and an event is filled in for it; when it disappears the
-- devices are what they were, its descriptor is closed once and no longer watched, and the event in
-- its place is one of a device that is gone. The device can be opened, no other has its path, and
-- the array has room for the event.
pub process_remove-process_create :
    (fs : FileSystem) (str_tmp : ℕ) (now later : Timeval) (wd : ℕ) (name : FilePath) (cev : ℕ)
    (events : List CookEvent) (c : CookEvent) (s : Inotify) (d : DirectoryPathDesc) (fd : ℕ)
    → find_wd wd s.watching.descs ≡ some d
    → is_char_device fs (entry_path d.path name) ≡ true
    → starts_with event_prefix name ≡ true
    → fs.open_rdwr (entry_path d.path name) ≡ some fd
    → find_name (entry_path d.path name) s.reader.devices ≡ none
    → cev < length events
    → get_elem? events cev ≡ some c
    → (let device : Device = record { device_name = entry_path d.path name; fd = fd } in
        Returns (process_create fs str_tmp now wd name cev events s) (λ x.
          (x.ret ≡ 1)
          × (get_elem? x.events cev ≡ some (notice add_device_type str_tmp now c))
          × IsAttached device s.reader x.state.reader
          × Returns (process_remove str_tmp later wd name cev x.events x.state) (λ y.
            (y.ret ≡ 1)
            × (get_elem? y.events cev ≡ some (notice del_device_type str_tmp later c))
            × IsDetached device s.reader y.state.reader)))
unfolding process_create process_remove
process_remove-process_create fs str_tmp now later wd name cev events c s d fd w ch ev o n l at =
    let path = entry_path d.path name in
    let device : Device = record { device_name = path; fd = fd } in
    let (no_dir, no_file) = char_device-kinds fs path ch in
    rw (w, process_create, no_dir, no_file, ch)
      (Returns-bind (write_event cev (notice add_device_type str_tmp now) events) _
        (IsWritten cev (notice add_device_type str_tmp now) events) _
        (write_event-IsWritten cev _ events l)
        (λ es x. rw (attach_device-opened fs name path fd s ev o) (
          refl,
          x.at c at,
          add_device-IsAttached device s.reader n,
          remove_attached str_tmp later wd name cev es (notice add_device_type str_tmp now c) s d fd
              w n (omega (arith, x.size)) (x.at c at),
        )))
