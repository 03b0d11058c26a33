-- ===== src/InputReader/Hangups.antt =====
-- What frameworks/inputmanager/InputReader.cpp does with a device whose descriptor has an error.
use zeus_os.Base.{
  ℕ, suc, ◌+◌, ◌≡◌, refl, sym, ap, subst, ◌∙◌, inl, inr, true, Bool-cases, some, Option-cases, List,
  [], ◌∷◌, ◌++◌, arith, ◌==◌, if◌then◌else◌,
}
use zeus_os.InputReader.{
  Device, Reader, EpollEvent, find_name, find_fd, del_device, without, read_once, is_hangup,
  epollin, close_fd, del_epoll_fd,
}

-- How often a descriptor stands in a list.
abbrev pub count : ℕ → List ℕ → ℕ
count fd [] = 0
count fd (x ∷ xs) = (if x == fd then 1 else 0) + count fd xs

pub count-append :
    (fd : ℕ) (xs : List ℕ) (x : ℕ)
    → count fd (xs ++ x ∷ []) ≡ count fd xs + (if x == fd then 1 else 0)
count-append fd [] x = omega arith
count-append fd (y ∷ xs) x = omega (arith, count-append fd xs x)

pub count-without : (fd : ℕ) (xs : List ℕ) → count fd (without fd xs) ≡ 0
unfolding without
count-without fd [] = refl
count-without fd (y ∷ xs) = ground (arith, count-without fd xs)

-- The device stays in the list, unwatched, and its descriptor is closed once more.
abbrev pub IsHungUp : ℕ → Reader → Reader → Type 0
IsHungUp fd r q =
    (q.devices ≡ r.devices)
    × (count fd q.watched ≡ 0)
    × (count fd q.closed ≡ suc (count fd r.closed))

pub count_last : (fd : ℕ) (xs : List ℕ) → count fd (xs ++ fd ∷ []) ≡ suc (count fd xs)
count_last fd xs = ground (arith, count-append fd xs fd)

hang_up :
    (e : EpollEvent) (r : Reader)
    → is_hangup e.events ≡ true
    → IsHungUp e.data_fd r (read_once (e ∷ []) r).1
unfolding read_once
hang_up e r h =
    rw h
      (refl, count-without e.data_fd (without e.data_fd r.watched), count_last e.data_fd r.closed)

del_device-closes :
    (path : List ℕ) (d : Device) (q : Reader)
    → find_name path q.devices ≡ some d
    → ((del_device path q).0 ≡ 0) × ((del_device path q).1.closed ≡ q.closed ++ d.fd ∷ [])
unfolding del_device
del_device-closes path d q f = rw (del_device, f) (refl, refl)

-- A device with an error is closed twice: when the wait reports a hangup of its descriptor the
-- descriptor is no longer watched and is closed, but the device stays in the list under its name, and
-- its later removal returns 0 and closes the same number once more. The device is the one of its name
-- in the list.
pub del_device-hangup :
    (e : EpollEvent) (path : List ℕ) (d : Device) (r : Reader)
    → is_hangup e.events ≡ true
    → d.fd ≡ e.data_fd
    → find_name path r.devices ≡ some d
    → (let q = (read_once (e ∷ []) r).1 in
        (find_name path q.devices ≡ some d)
        × (count d.fd q.watched ≡ 0)
        × ((del_device path q).0 ≡ 0)
        × (count d.fd (del_device path q).1.closed ≡ count d.fd r.closed + 2))
del_device-hangup e path d r h s f =
    let u = subst (λ fd. IsHungUp fd r (read_once (e ∷ []) r).1) (sym s) (hang_up e r h) in
    let k = ap (find_name path) u.0 ∙ f in
    (
      k,
      u.1,
      (del_device-closes path d (read_once (e ∷ []) r).1 k).0,
      ap (count d.fd) (del_device-closes path d (read_once (e ∷ []) r).1 k).1
          ∙ count_last d.fd (read_once (e ∷ []) r).1.closed
          ∙ omega (arith, u.2),
    )

find_fd-found :
    (fd : ℕ) (ds : List Device) (d : Device)
    → find_fd fd ds ≡ some d
    → (d.fd ≡ fd) × (find_fd d.fd ds ≡ some d)
unfolding find_fd
find_fd-found fd [] d e = cc
find_fd-found fd (x ∷ ds) d e = ground (arith, find_fd-found fd ds d)

-- A wait never changes the list of devices, and the device that it hands over is one of the list.
pub read_once-find_fd :
    (es : List EpollEvent) (r : Reader) (d : Device)
    → ((read_once es r).1.devices ≡ r.devices)
      × ((read_once es r).0 ≡ some d → find_fd d.fd r.devices ≡ some d)
unfolding read_once
read_once-find_fd [] r d = (refl, λ e. cc)
read_once-find_fd (e ∷ es) r d = elim (Bool-cases (is_hangup e.events)) [
  | inl y ↦ rw y (read_once-find_fd es (close_fd e.data_fd (del_epoll_fd e.data_fd r)) d)
  | inr n ↦ elim (Bool-cases (e.events == epollin)) [
    | inr m ↦ rw (n, m) (read_once-find_fd es r d)
    | inl y ↦ elim (Option-cases (find_fd e.data_fd r.devices)) [
      | inl z ↦ rw (n, y, z) (read_once-find_fd es r d)
      | inr (x, f) ↦ rw (n, y, f) (refl, λ q. (find_fd-found e.data_fd r.devices d (f ∙ q)).1)
    ]
  ]
]
