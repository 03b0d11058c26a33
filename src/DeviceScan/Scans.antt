-- ===== src/DeviceScan/Scans.antt =====
-- Which devices EventDevice::scanDevice of frameworks/inputmanager/EventDevice.cpp adds.
use zeus_os.Base.{
  ℕ, ◌≡◌, refl, sym, ap, ◌∙◌, ◌⊎◌, inl, inr, Bool, ◌&&◌, not, Bool-cases, Option-cases, none, some,
  List, [], ◌∷◌, ◌++◌, if◌then◌else◌,
}
use mathlib.Core.List.{append-nil, append_assoc}
use zeus_os.InputReader.{Device, Reader, add_device}
use zeus_os.FileSystem.{
  FilePath, FileSystem, is_char_device, entry_path, starts_with, is_hidden, event_prefix,
}
use zeus_os.DeviceScan.{minus_one, scan_entries, scan_device}

-- An entry that is an input device.
abbrev pub is_input : FileSystem → FilePath → FilePath → Bool
is_input fs path name =
    not (is_hidden name)
    && (is_char_device fs (entry_path path name) && starts_with event_prefix name)

-- The paths of the input devices of a directory, in its order.
abbrev pub inputs : FileSystem → FilePath → List FilePath → List FilePath
inputs fs path [] = []
inputs fs path (name ∷ names) =
    if is_input fs path name
    then entry_path path name ∷ inputs fs path names
    else inputs fs path names

-- The devices that were opened, one for each of some paths.
abbrev pub AreOpened : FileSystem → List FilePath → List Device → Type 0
AreOpened fs [] [] = Unit
AreOpened fs (q ∷ qs) (d ∷ ds) =
    (d.device_name ≡ q) × (fs.open_rdwr q ≡ some d.fd) × AreOpened fs qs ds
AreOpened fs _ _ = ⊥

-- A scan has added the devices of the first input paths: of all, and returned 0, or of those in
-- front of one that cannot be opened, and returned -1.
abbrev pub IsScanned : FileSystem → List FilePath → Reader → ℕ × Reader → Type 0
IsScanned fs qs r x =
    (front : List FilePath) × (back : List FilePath) × (added : List Device) × (qs ≡ front ++ back)
    × AreOpened fs front added
    × (x.1.devices ≡ r.devices ++ added)
    × (((x.0 ≡ 0) × (back ≡ []))
        ⊎ ((x.0 ≡ minus_one)
            × (q : FilePath) × (qs' : List FilePath) × (back ≡ q ∷ qs')
            × (fs.open_rdwr q ≡ none)))

IsScanned-after :
    (fs : FileSystem) (qs : List FilePath) (d : Device) (r : Reader) (x : ℕ × Reader)
    → fs.open_rdwr d.device_name ≡ some d.fd
    → IsScanned fs qs (add_device d r) x
    → IsScanned fs (d.device_name ∷ qs) r x
unfolding add_device
IsScanned-after fs qs d r x o (front, back, added, split, opened, grown, end) = (
  d.device_name ∷ front,
  back,
  d ∷ added,
  ap (λ xs. d.device_name ∷ xs) split,
  (refl, o, opened),
  grown ∙ append_assoc r.devices (d ∷ []) added,
  end,
)

scan_entries-IsScanned :
    (fs : FileSystem) (path : FilePath) (names : List FilePath) (r : Reader)
    → IsScanned fs (inputs fs path names) r (scan_entries fs path names r)
unfolding scan_entries
scan_entries-IsScanned fs path [] r =
    ([], [], [], refl, tt, sym (append-nil r.devices), inl (refl, refl))
scan_entries-IsScanned fs path (name ∷ names) r =
    let rest = scan_entries-IsScanned fs path names r in
    elim (Bool-cases (is_hidden name)) [
      | inl y ↦ rw y rest
      | inr n ↦ elim (Bool-cases (is_char_device fs (entry_path path name))) [
        | inr k ↦ rw (n, k) rest
        | inl c ↦ elim (Bool-cases (starts_with event_prefix name)) [
          | inr k ↦ rw (n, c, k) rest
          | inl s ↦ elim (Option-cases (fs.open_rdwr (entry_path path name))) [
            | inl closed ↦
                rw (n, c, s, closed)
                  (
                    [],
                    entry_path path name ∷ inputs fs path names,
                    [],
                    refl,
                    tt,
                    sym (append-nil r.devices),
                    inr (refl, entry_path path name, inputs fs path names, refl, closed),
                  )
            | inr (fd, o) ↦
                rw (n, c, s, o)
                  (IsScanned-after fs (inputs fs path names)
                    (record { device_name = entry_path path name; fd = fd }) r
                    (scan_entries fs path names
                      (add_device (record { device_name = entry_path path name; fd = fd }) r))
                    o
                    (scan_entries-IsScanned fs path names
                      (add_device (record { device_name = entry_path path name; fd = fd }) r)))
          ]
        ]
      ]
    ]

-- scanDevice adds to the devices, behind those that are there, one for each visible character device
-- of the directory whose name begins with "event", opened and in the order of the directory, and
-- returns 0; or it returns -1 at the first of them that cannot be opened, with the devices in front
-- of it added, or at once when the directory cannot be opened.
pub scan_device-IsScanned :
    (fs : FileSystem) (path : FilePath) (r : Reader)
    → (fs.opendir 0 path ≡ none → scan_device fs path r ≡ (minus_one, r))
      × ((names : List FilePath)
          → fs.opendir 0 path ≡ some names
          → IsScanned fs (inputs fs path names) r (scan_device fs path r))
unfolding scan_device
scan_device-IsScanned fs path r = (
  λ e. rw (e, scan_device) refl,
  λ names e. rw (e, scan_device) (scan_entries-IsScanned fs path names r),
)
