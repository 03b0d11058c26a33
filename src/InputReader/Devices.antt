-- ===== src/InputReader/Devices.antt =====
-- The list of devices of frameworks/inputmanager/InputReader.cpp as a map from names.
use zeus_os.Base.{
  ℕ, ◌≡◌, refl, sym, ap, ◌∙◌, inl, inr, false, Bool-cases, none, some, Option-cases, List, [], ◌∷◌,
  ◌++◌, arith, if◌then◌else◌,
}
use zeus_os.ServiceManager.{bytes_eq}
use zeus_os.ServiceManager.Nodes.{bytes_eq_iff}
use zeus_os.InputReader.{Device, Reader, find_name, remove_name, del_device}

-- No device has that name.
abbrev pub Unnamed : List ℕ → List Device → Type 0
Unnamed path [] = Unit
Unnamed path (d ∷ ds) = (bytes_eq d.device_name path ≡ false) × Unnamed path ds

abbrev pub DistinctNames : List Device → Type 0
DistinctNames [] = Unit
DistinctNames (d ∷ ds) = Unnamed d.device_name ds × DistinctNames ds

pub find_name-append :
    (path : List ℕ) (ds : List Device) (d : Device)
    → find_name path (ds ++ d ∷ []) ≡ elim (find_name path ds) [
      | none ↦ if bytes_eq d.device_name path then some d else none
      | some x ↦ some x
    ]
unfolding find_name
find_name-append path [] d = refl
find_name-append path (x ∷ ds) d = ground (arith, find_name-append path ds d)

Unnamed-find_name : (path : List ℕ) (ds : List Device) → Unnamed path ds → find_name path ds ≡ none
unfolding find_name
Unnamed-find_name path [] u = refl
Unnamed-find_name path (x ∷ ds) u = ground (arith, Unnamed-find_name path ds u.1)

-- After the removal of a name it is not found, and every other name gives what it gave.
find_name-remove_name :
    (path other : List ℕ) (ds : List Device)
    → DistinctNames ds
    → find_name other (remove_name path ds)
      ≡ (if bytes_eq path other then none else find_name other ds)
unfolding find_name remove_name
find_name-remove_name path other [] u = ground arith
find_name-remove_name path other (x ∷ ds) u = ground (
  arith,
  find_name-remove_name path other ds u.1,
  Unnamed-find_name x.device_name ds u.0,
  bytes_eq_iff x.device_name path,
  bytes_eq_iff x.device_name other,
  bytes_eq_iff path other,
)

-- delDevice takes a name off the list and no other: the name is not found afterwards, and every
-- other name gives the device that it gave. It returns 0 if there was a device of that name and 1,
-- changing nothing, if there was none. The devices have different names.
pub del_device-find_name :
    (path : List ℕ) (r : Reader)
    → DistinctNames r.devices
    → ((other : List ℕ)
        → find_name other (del_device path r).1.devices
          ≡ (if bytes_eq path other then none else find_name other r.devices))
      × (find_name path r.devices ≡ none → del_device path r ≡ (1, r))
      × ((d : Device) → find_name path r.devices ≡ some d → (del_device path r).0 ≡ 0)
unfolding del_device
del_device-find_name path r u = (
  λ other. elim (Option-cases (find_name path r.devices)) [
    | inl n ↦ rw (del_device, n) (missing other n)
    | inr (d, e) ↦ rw (del_device, e) (find_name-remove_name path other r.devices u)
  ],
  λ n. rw (del_device, n) refl,
  λ d e. rw (del_device, e) refl,
)
  where
    missing :
        (other : List ℕ)
        → find_name path r.devices ≡ none
        → find_name other r.devices
          ≡ (if bytes_eq path other then none else find_name other r.devices)
    missing other n = elim (Bool-cases (bytes_eq path other)) [
      | inl y ↦ rw y (ap (λ k. find_name k r.devices) (sym ((bytes_eq_iff path other).0 y)) ∙ n)
      | inr z ↦ rw z refl
    ]
