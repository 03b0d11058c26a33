-- ===== src/Calibrate/Touches.antt =====
-- The five touches that frameworks/calibrate/Calibrate.cpp asks for.
use zeus_os.Base.{◌≡◌, refl, some, Option, List, [], ◌∷◌, Bool}
use zeus_os.Binder.{done}
use zeus_os.EventDevice.{CookEvent, touchscreen}
use zeus_os.Calibrate.{
  Doubles, PointDesc, Screen, ReadRound, show_target, interchange, info_of, is_interchanged,
  calibrated,
}

-- The finger moves over some points, rests on one, and is taken away.
pub record Touch : Type 0 where
  pub moves : List PointDesc
  pub at : PointDesc

-- Touches of the five targets, in their order.
pub record Touches : Type 0 where
  pub top_left : Touch
  pub top_right : Touch
  pub bottom_right : Touch
  pub bottom_left : Touch
  pub centre : Touch

-- The events of a touch; what they hold beside does not matter.
module _ (other : CookEvent) where
  abbrev pub press : PointDesc → ReadRound
  press p = record {
    ret = 1;
    event = record other { type = touchscreen; x = p.x; y = p.y; pressure = 1 };
  }

  abbrev pub release : ReadRound
  release = record { ret = 1; event = record other { type = touchscreen; pressure = 0 } }

  abbrev pub presses : List PointDesc → PointDesc → List ReadRound → List ReadRound
  presses [] p rest = press p ∷ release ∷ rest
  presses (m ∷ ms) p rest = press m ∷ presses ms p rest

  abbrev pub touched : Touch → List ReadRound → List ReadRound
  touched t rest = presses t.moves t.at rest

  abbrev pub all_touched : Touches → List ReadRound → List ReadRound
  all_touched ts rest = touched ts.top_left (
      touched ts.top_right
        (touched ts.bottom_right (touched ts.bottom_left (touched ts.centre rest))))

  -- The point on which the finger rested is the one that counts.
  show_target-presses :
      (ms : List PointDesc) (p : PointDesc) (rest : List ReadRound) (o : Option PointDesc)
      → show_target (presses ms p rest) o ≡ done (some p, rest)
  unfolding show_target
  show_target-presses [] p rest o = refl
  show_target-presses (m ∷ ms) p rest o = show_target-presses ms p rest (some m)

  pub calibrated-touched :
      {W : Type 0} (d : Doubles W) (screen : Screen) (ts : Touches) (rest : List ReadRound)
      (swapped : Bool)
      → is_interchanged ts.top_left.at ts.top_right.at ≡ swapped
      → calibrated d screen (all_touched ts rest)
        ≡ done (
          info_of d screen swapped
              (interchange swapped ts.top_left.at)
              (interchange swapped ts.top_right.at)
              (interchange swapped ts.bottom_right.at)
              (interchange swapped ts.bottom_left.at)
              (interchange swapped ts.centre.at),
          rest,
        )
  unfolding calibrated
  calibrated-touched d screen ts rest swapped e =
      rw
        (
          show_target-presses ts.top_left.moves ts.top_left.at,
          show_target-presses ts.top_right.moves ts.top_right.at,
          e,
          show_target-presses ts.bottom_right.moves ts.bottom_right.at,
          show_target-presses ts.bottom_left.moves ts.bottom_left.at,
          show_target-presses ts.centre.moves ts.centre.at,
        )
        refl
