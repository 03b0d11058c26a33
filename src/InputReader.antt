-- ===== src/InputReader.antt =====
-- The devices of input events and one wait for them: frameworks/inputmanager/InputReader.cpp, with
-- the fields of a Device of frameworks/inputmanager/Device.cpp.
pub mod Devices
pub mod Hangups
pub mod Examples
use zeus_os.Base.{
  ℕ, suc, ◌+◌, Bool, true, false, ◌||◌, Option, none, some, List, [], ◌∷◌, ◌++◌, ◌==◌,
  if◌then◌else◌,
}
use zeus_os.ServiceManager.{bytes_eq}
use zeus_os.InputManager.{shares_bit}

-- A Device: the text of its name, and the descriptor.
pub record Device : Type 0 where
  pub device_name : List ℕ
  pub fd : ℕ

-- deviceList, the descriptors that epoll watches, and those that were handed to close.
pub record Reader : Type 0 where
  pub devices : List Device
  pub watched : List ℕ
  pub closed : List ℕ

unfoldable pub without : ℕ → List ℕ → List ℕ
without fd [] = []
without fd (w ∷ ws) = if w == fd then without fd ws else w ∷ without fd ws

-- addEpollFd, which leaves a descriptor that epoll has already, and delEpollFd; their callers do
-- not look at the result. close also takes a descriptor from epoll.
abbrev pub add_epoll_fd : ℕ → Reader → Reader
add_epoll_fd fd r = record r { watched = without fd r.watched ++ fd ∷ [] }

abbrev pub del_epoll_fd : ℕ → Reader → Reader
del_epoll_fd fd r = record r { watched = without fd r.watched }

abbrev pub close_fd : ℕ → Reader → Reader
close_fd fd r = record r { watched = without fd r.watched; closed = r.closed ++ fd ∷ [] }

unfoldable pub add_device : Device → Reader → Reader
add_device d r = add_epoll_fd d.fd (record r { devices = r.devices ++ d ∷ [] })

-- findDevice with a path, and with a descriptor.
unfoldable pub find_name : List ℕ → List Device → Option Device
find_name path [] = none
find_name path (d ∷ ds) = if bytes_eq d.device_name path then some d else find_name path ds

unfoldable pub find_fd : ℕ → List Device → Option Device
find_fd fd [] = none
find_fd fd (d ∷ ds) = if d.fd == fd then some d else find_fd fd ds

-- The list without the device that findDevice finds. A device stands in the list once.
unfoldable pub remove_name : List ℕ → List Device → List Device
remove_name path [] = []
remove_name path (d ∷ ds) = if bytes_eq d.device_name path then ds else d ∷ remove_name path ds

-- delDevice: 0, or 1 when there is no such device.
unfoldable pub del_device : List ℕ → Reader → ℕ × Reader
del_device path r = elim (find_name path r.devices) [
  | none ↦ (1, r)
  | some d ↦
      (0, close_fd d.fd (del_epoll_fd d.fd (record r { devices = remove_name path r.devices })))
]

-- struct epoll_event
pub record EpollEvent : Type 0 where
  pub events : ℕ
  pub data_fd : ℕ

abbrev pub epollin : ℕ
epollin = 1

-- EPOLLERR, EPOLLHUP and EPOLLRDHUP
abbrev pub is_hangup : ℕ → Bool
is_hangup events =
    shares_bit 32 events 0x8 || shares_bit 32 events 0x10 || shares_bit 32 events 0x2000

-- readOnce on what epoll_wait delivers: the device whose `process` is called at the end, if one is.
unfoldable pub read_once : List EpollEvent → Reader → Option Device × Reader
read_once [] r = (none, r)
read_once (e ∷ es) r =
    let skipped = read_once es r in
    let hung = read_once es (close_fd e.data_fd (del_epoll_fd e.data_fd r)) in
    if is_hangup e.events
    then hung
    else if e.events == epollin
    then (elim (find_fd e.data_fd r.devices) [ none ↦ skipped | some d ↦ (some d, r) ])
    else skipped
