-- ===== src/EventDevice/Examples.antt =====
-- EventDevice::process of frameworks/inputmanager/EventDevice.cpp on a touch.
use zeus_os.Base.{ℕ, ◌≡◌, refl, inl, [], ◌∷◌, arith, ◌==◌, if◌then◌else◌}
use zeus_os.Binder.{Returns, fault}
use zeus_os.EventDevice.{
  CookEvent, InputEvent, Timeval, process, got, failed, eagain, abs_mt_position_x, ev_abs,
}
use zeus_os.EventDevice.Bounds.{IsDelivered, process-IsDelivered, process-fault}

abbrev now : ℕ → Timeval
now i = record { seconds = 9; microseconds = i }

abbrev blank : CookEvent
blank = record {
  time = now 0;
  file_path = 0;
  type = 0;
  x = 0;
  y = 0;
  key = 0;
  pressure = 0;
  track_id = 0;
  touch_major = 0;
}

-- A position, a report, and what is no event that the code knows.
abbrev touch : ℕ → InputEvent
touch i =
    if i == 0
    then record { type = ev_abs; code = abs_mt_position_x; value = 40 }
    else if i == 1
    then record { type = 0; code = 0; value = 0 }
    else record { type = 4; code = 0; value = 0 }

process-IsDelivered_example :
    Returns
      (process (got 32) touch now (blank ∷ blank ∷ []) 2 0)
      (IsDelivered 32 touch (blank ∷ blank ∷ []) 2)
process-IsDelivered_example =
    process-IsDelivered 32 touch now (blank ∷ blank ∷ []) 2 0 (omega arith) (omega arith)
      (omega arith)

process-fault_example : process (failed eagain) touch now (blank ∷ blank ∷ []) 2 0 ≡ fault
process-fault_example =
    process-fault eagain touch now (blank ∷ blank ∷ []) 2 0 (inl refl) (omega arith) (omega arith)
