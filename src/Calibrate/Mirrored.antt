-- ===== src/Calibrate/Mirrored.antt =====
-- The calibration of frameworks/calibrate/Calibrate.cpp on a touch panel whose axes are interchanged.
use zeus_os.Base.{ℕ, ◌≡◌, refl, true, false, List, map, arith}
use zeus_os.Memory.{int_lt}
use zeus_os.Binder.{Returns}
use zeus_os.EventDevice.{CookEvent}
use zeus_os.Calibrate.{
  Doubles, PointDesc, Screen, ReadRound, abs_int, sub_int, info_of, is_interchanged, calibrated,
}
use zeus_os.Calibrate.Touches.{Touch, Touches, all_touched, calibrated-touched}

-- What a panel with interchanged axes reports for the same touches.
abbrev pub mirror : PointDesc → PointDesc
mirror p = record { x = p.y; y = p.x }

abbrev pub mirror_touch : Touch → Touch
mirror_touch t = record { moves = map mirror t.moves; at = mirror t.at }

abbrev pub mirror_touches : Touches → Touches
mirror_touches ts = record {
  top_left = mirror_touch ts.top_left;
  top_right = mirror_touch ts.top_right;
  bottom_right = mirror_touch ts.bottom_right;
  bottom_left = mirror_touch ts.bottom_left;
  centre = mirror_touch ts.centre;
}

int_lt_asym : (a b : ℕ) → int_lt a b ≡ true → int_lt b a ≡ false
int_lt_asym a b h = ground arith

-- A calibration comes to the same on a panel whose axes are those of the screen and on one whose
-- axes are interchanged, but for the flag that says so: five touches, each wherever the finger moved
-- before it rested, of which the first two are farther apart in x than in y on the first panel, are
-- enough for both. The centre that is stored has the x of the last touch for its x and its y too.
pub calibrated_mirrored :
    {W : Type 0} (d : Doubles W) (screen : Screen) (other : CookEvent) (ts : Touches)
    (rest : List ReadRound)
    → int_lt
        (abs_int (sub_int ts.top_right.at.y ts.top_left.at.y))
        (abs_int (sub_int ts.top_right.at.x ts.top_left.at.x))
      ≡ true
    → Returns (calibrated d screen (all_touched other ts rest)) (λ plain.
      (plain.1 ≡ rest)
      × (plain.0.interchange_xy ≡ false)
      × (plain.0.xlc ≡ ts.centre.at.x)
      × (plain.0.ylc ≡ ts.centre.at.x)
      × Returns
          (calibrated d screen (all_touched other (mirror_touches ts) rest))
          (λ mirrored. mirrored ≡ (record (plain.0) { interchange_xy = true }, rest)))
unfolding info_of is_interchanged
calibrated_mirrored d screen other ts rest wide =
    rw
      (
        calibrated-touched other d screen ts rest false (int_lt_asym _ _ wide),
        calibrated-touched other d screen (mirror_touches ts) rest true wide,
      )
      (refl, refl, refl, refl, refl)
