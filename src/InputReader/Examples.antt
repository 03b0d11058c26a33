-- ===== src/InputReader/Examples.antt =====
-- The reader of frameworks/inputmanager/InputReader.cpp with two devices.
use zeus_os.Base.{ℕ, ◌+◌, ◌≡◌, refl, none, some, List, [], ◌∷◌, if◌then◌else◌}
use zeus_os.ServiceManager.{bytes_eq}
use zeus_os.InputManager.{shares_bit}
use zeus_os.InputReader.{Device, Reader, EpollEvent, find_name, del_device, read_once}
use zeus_os.InputReader.Devices.{del_device-find_name}
use zeus_os.InputReader.Hangups.{count, del_device-hangup}

abbrev panel : Device
panel = record { device_name = 97 ∷ []; fd = 5 }

abbrev keys : Device
keys = record { device_name = 98 ∷ []; fd = 6 }

abbrev reader : Reader
reader = record { devices = panel ∷ keys ∷ []; watched = 5 ∷ 6 ∷ []; closed = [] }

abbrev hangup : EpollEvent
hangup = record { events = 0x10; data_fd = 5 }

abbrev readable : EpollEvent
readable = record { events = 1; data_fd = 6 }

del_device-find_name_example :
    ((other : List ℕ)
      → find_name other (del_device (97 ∷ []) reader).1.devices
        ≡ (if bytes_eq (97 ∷ []) other then none else find_name other reader.devices))
    × (find_name (97 ∷ []) reader.devices ≡ none → del_device (97 ∷ []) reader ≡ (1, reader))
    × ((d : Device)
        → find_name (97 ∷ []) reader.devices ≡ some d
        → (del_device (97 ∷ []) reader).0 ≡ 0)
unfolding bytes_eq
del_device-find_name_example = del_device-find_name (97 ∷ []) reader ((refl, tt), (tt, tt))

del_device-hangup_example :
    (let q = (read_once (hangup ∷ []) reader).1 in
      (find_name (97 ∷ []) q.devices ≡ some panel)
      × (count 5 q.watched ≡ 0)
      × ((del_device (97 ∷ []) q).0 ≡ 0)
      × (count 5 (del_device (97 ∷ []) q).1.closed ≡ count 5 reader.closed + 2))
unfolding find_name bytes_eq shares_bit
del_device-hangup_example = del_device-hangup hangup (97 ∷ []) panel reader refl refl refl
