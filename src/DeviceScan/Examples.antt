-- ===== src/DeviceScan/Examples.antt =====
-- A scan of frameworks/inputmanager/EventDevice.cpp over a directory with one input device.
use zeus_os.Base.{◌≡◌, none, some, List, [], ◌∷◌}
use zeus_os.InputReader.{Reader}
use zeus_os.FileSystem.{FilePath, FileSystem, char_device}
use zeus_os.DeviceScan.{minus_one, scan_device}
use zeus_os.DeviceScan.Scans.{inputs, IsScanned, scan_device-IsScanned}

abbrev dev : FilePath
dev = 47 ∷ 100 ∷ []

abbrev event0 : FilePath
event0 = 101 ∷ 118 ∷ 101 ∷ 110 ∷ 116 ∷ 48 ∷ []

abbrev files : FileSystem
files = record {
  stat = λ q. some char_device;
  opendir = λ held q. some ((46 ∷ []) ∷ event0 ∷ (109 ∷ []) ∷ []);
  open_rdwr = λ q. some 8;
  add_watch = λ q. none;
}

abbrev idle : Reader
idle = record { devices = []; watched = []; closed = [] }

scan_device-IsScanned_example :
    (files.opendir 0 dev ≡ none → scan_device files dev idle ≡ (minus_one, idle))
    × ((names : List FilePath)
        → files.opendir 0 dev ≡ some names
        → IsScanned files (inputs files dev names) idle (scan_device files dev idle))
scan_device-IsScanned_example = scan_device-IsScanned files dev idle
