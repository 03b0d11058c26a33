-- ===== src/DeviceScan.antt =====
-- EventDevice::scanDevice of frameworks/inputmanager/EventDevice.cpp: the input devices that are
-- there when the reader starts.
pub mod Scans
pub mod Examples
use zeus_os.Base.{ℕ, Option, none, some, List, [], ◌∷◌, if◌then◌else◌}
use zeus_os.InputReader.{Device, Reader, add_device}
use zeus_os.FileSystem.{
  FilePath, FileSystem, is_char_device, entry_path, starts_with, is_hidden, event_prefix,
}

-- -1
abbrev pub minus_one : ℕ
minus_one = 0xffffffff

-- The loop over the entries of a directory, and the `return` inside it.
unfoldable pub scan_entries : FileSystem → FilePath → List FilePath → Reader → ℕ × Reader
scan_entries fs path [] r = (0, r)
scan_entries fs path (name ∷ names) r =
    let rest = scan_entries fs path names r in
    if is_hidden name
    then rest
    else if is_char_device fs (entry_path path name)
    then (if starts_with event_prefix name
        then (elim (fs.open_rdwr (entry_path path name)) [
          | none ↦ (minus_one, r)
          | some fd ↦
              scan_entries fs path names
                (add_device (record { device_name = entry_path path name; fd = fd }) r)
        ])
        else rest)
    else rest

unfoldable pub scan_device : FileSystem → FilePath → Reader → ℕ × Reader
scan_device fs path r = elim (fs.opendir 0 path) [
  | none ↦ (minus_one, r)
  | some names ↦ scan_entries fs path names r
]
