-- ===== src/Calibrate/Examples.antt =====
-- A calibration of frameworks/calibrate/Calibrate.cpp on a screen of 800 by 480 points.
use zeus_os.Base.{ℕ, ◌≡◌, refl, true, false, [], ◌∷◌, ◌/◌}
use zeus_os.Binder.{Returns}
use zeus_os.EventDevice.{CookEvent}
use zeus_os.Calibrate.{Doubles, PointDesc, Screen, abs_int, calibrated}
use zeus_os.Calibrate.Touches.{Touch, Touches, all_touched}
use zeus_os.Calibrate.Mirrored.{mirror_touches, calibrated_mirrored}

-- Whole numbers in place of the doubles.
abbrev whole : Doubles ℕ
whole = record { from_int = λ n. n; ◌/ᵈ◌ = ◌/◌ }

abbrev screen : Screen
screen = record { xres = 800; yres = 480 }

abbrev blank : CookEvent
blank = record {
  time = record { seconds = 0; microseconds = 0 };
  file_path = 0;
  type = 0;
  x = 0;
  y = 0;
  key = 0;
  pressure = 0;
  track_id = 0;
  touch_major = 0;
}

abbrev point : ℕ → ℕ → PointDesc
point x y = record { x = x; y = y }

abbrev steady : ℕ → ℕ → Touch
steady x y = record { moves = []; at = point x y }

abbrev five : Touches
five = record {
  top_left = record { moves = point 90 130 ∷ []; at = point 100 120 };
  top_right = steady 1500 130;
  bottom_right = steady 1500 880;
  bottom_left = steady 100 870;
  centre = steady 800 500;
}

calibrated_mirrored_example :
    Returns (calibrated whole screen (all_touched blank five [])) (λ plain.
      (plain.1 ≡ [])
      × (plain.0.interchange_xy ≡ false)
      × (plain.0.xlc ≡ 800)
      × (plain.0.ylc ≡ 800)
      × Returns
          (calibrated whole screen (all_touched blank (mirror_touches five) []))
          (λ mirrored. mirrored ≡ (record (plain.0) { interchange_xy = true }, [])))
unfolding abs_int
calibrated_mirrored_example = calibrated_mirrored whole screen blank five [] refl
