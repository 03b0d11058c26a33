-- ===== src/Calibrate.antt =====
-- The calibration of the touch screen, frameworks/calibrate/Calibrate.cpp. The doubles of the target
-- and the frame buffer, whose code is not in the repository, are arguments.
pub mod Touches
pub mod Mirrored
pub mod Examples
use zeus_os.Base.{
  ℕ, ◌+◌, ◌-◌, ◌*◌, ◌/◌, ◌%◌, ◌^◌, Bool, true, false, Option, none, some, List, [], ◌∷◌, ◌==◌,
  if◌then◌else◌,
}
use zeus_os.Memory.{u32_mod, int_lt}
use zeus_os.Binder.{Outcome, done, fault, blocked, ◌>>=◌}
use zeus_os.EventDevice.{CookEvent, touchscreen}

-- The conversion of an int, which is its bit pattern, and the division.
pub record Doubles (W : Type 0) : Type 0 where
  pub from_int : ℕ → W
  pub ◌/ᵈ◌ : W → W → W

-- struct CalibrateInfo
pub record CalibrateInfo (W : Type 0) : Type 0 where
  pub interchange_xy : Bool
  pub kx : W
  pub ky : W
  pub xlc : ℕ
  pub ylc : ℕ
  pub xc : ℕ
  pub yc : ℕ

-- struct PointDesc
pub record PointDesc : Type 0 where
  pub x : ℕ
  pub y : ℕ

-- iXres and iYres of the screen.
pub record Screen : Type 0 where
  pub xres : ℕ
  pub yres : ℕ

abbrev pub add_int : ℕ → ℕ → ℕ
add_int a b = (a + b) % u32_mod

abbrev pub sub_int : ℕ → ℕ → ℕ
sub_int a b = (a + u32_mod - b) % u32_mod

-- ABS
unfoldable pub abs_int : ℕ → ℕ
abs_int x = if int_lt x 0 then sub_int 0 x else x

-- What one readOnce returns, with the first event of the array; no other is looked at.
pub record ReadRound : Type 0 where
  pub ret : ℕ
  pub event : CookEvent

-- The loop of showTargetToLCD on the rounds to come: the point that was pressed last, `none` where the
-- variables of the caller are not set, and the rounds that are left.
unfoldable pub show_target :
    List ReadRound → Option PointDesc → Outcome (Option PointDesc × List ReadRound)
show_target [] point = blocked
show_target (r ∷ rs) point =
    let skipped = show_target rs point in
    let pressed = show_target rs (some (record { x = r.event.x; y = r.event.y })) in
    if int_lt 0 r.ret
    then (if r.event.type == touchscreen
        then (if r.event.pressure == 1 then pressed else done (point, rs))
        else skipped)
    else skipped

-- A use of variables that are not set is undefined.
abbrev pub use_point : Option PointDesc → Outcome PointDesc
use_point none = fault
use_point (some p) = done p

abbrev pub interchange : Bool → PointDesc → PointDesc
interchange true p = record { x = p.y; y = p.x }
interchange false p = p

-- From the points that were shown and those that were touched, in the order top left, top right,
-- bottom right, bottom left and centre. The y of the centre is set from the x, as the code does.
unfoldable pub info_of :
    {W : Type 0}
    → Doubles W
    → Screen
    → Bool
    → PointDesc
    → PointDesc
    → PointDesc
    → PointDesc
    → PointDesc
    → CalibrateInfo W
info_of d screen swapped p0 p1 p2 p3 p4 =
    let offset : ℕ = 50 in
    let right = sub_int screen.xres offset in
    let bottom = sub_int screen.yres offset in
    record {
      interchange_xy = swapped;
      kx =
          d.◌/ᵈ◌
            (d.◌/ᵈ◌ (d.from_int (add_int (sub_int p1.x p0.x) (sub_int p2.x p3.x))) (d.from_int 2))
            (d.from_int (sub_int right offset));
      ky =
          d.◌/ᵈ◌
            (d.◌/ᵈ◌ (d.from_int (add_int (sub_int p2.y p1.y) (sub_int p3.y p0.y))) (d.from_int 2))
            (d.from_int (sub_int bottom offset));
      xlc = p4.x;
      ylc = p4.x;
      xc = screen.xres / 2;
      yc = screen.yres / 2;
    }

-- The test whether the axes are those of the screen.
unfoldable pub is_interchanged : PointDesc → PointDesc → Bool
is_interchanged p0 p1 = int_lt (abs_int (sub_int p1.x p0.x)) (abs_int (sub_int p1.y p0.y))

-- startCalibrate up to the configuration file. A point is used where the code first computes with
-- it; those that are touched on an interchanged screen go into the other coordinate.
unfoldable pub calibrated :
    {W : Type 0} → Doubles W → Screen → List ReadRound → Outcome (CalibrateInfo W × List ReadRound)
calibrated d screen rs = do
  (t0, rs0) ← show_target rs none
  (t1, rs1) ← show_target rs0 none
  q0 ← use_point t0
  q1 ← use_point t1
  let swapped = is_interchanged q0 q1
  (t2, rs2) ← show_target rs1 none
  (t3, rs3) ← show_target rs2 none
  (t4, rs4) ← show_target rs3 none
  q2 ← use_point t2
  q3 ← use_point t3
  q4 ← use_point t4
  done (
    info_of d screen swapped (interchange swapped q0) (interchange swapped q1)
        (interchange swapped q2) (interchange swapped q3) (interchange swapped q4),
    rs4,
  )

-- mtCalibrateInfo and mHasCalibrated, and the configuration file, if it is there.
pub record Calibration (W : Type 0) : Type 0 where
  pub info : CalibrateInfo W
  pub has_calibrated : Bool
  pub config : Option (CalibrateInfo W)

-- `opens` is whether open of the configuration file succeeds. The old file is removed before.
unfoldable pub start_calibrate :
    {W : Type 0}
    → Doubles W
    → Screen
    → Bool
    → List ReadRound
    → Calibration W
    → Outcome (Calibration W × List ReadRound)
start_calibrate d screen opens rs c = calibrated d screen rs >>= λ x.
    done
      (record { info = x.0; has_calibrated = true; config = if opens then some x.0 else none }, x.1)

-- What readConfigSetCalibrateInfo returns, with the state and the rounds left. The file holds a whole
-- structure.
unfoldable pub read_config_set_calibrate_info :
    {W : Type 0}
    → Doubles W
    → Screen
    → Bool
    → List ReadRound
    → Calibration W
    → Outcome (ℕ × Calibration W × List ReadRound)
unfolding start_calibrate
read_config_set_calibrate_info d screen opens rs c = elim c.config [
  | none ↦ start_calibrate d screen opens rs c >>= λ x. done (0, x.0, x.1)
  | some stored ↦
      if opens
      then done (0, record c { info = stored; has_calibrated = true }, rs)
      else done (0xffffffff, c, rs)
]
