-- ===== src/InputLoop/Examples.antt =====
-- One event on its way through packages/inputmanager/main_inputmanager.cpp.
use zeus_os.Base.{◌≡◌, refl, none, [], ◌∷◌, ◌++◌}
use zeus_os.Binder.{Process}
use zeus_os.EventDevice.{CookEvent}
use zeus_os.InputManager.{ListenerDesc, Listening, dispatch_event}
use zeus_os.ThreadPool.{new_pool, look, add_task, signal}
use zeus_os.InputLoop.{
  Station, hand_over, hand_over_all, reader_round, run_task, after_look, dispatch_round,
}
use zeus_os.InputLoop.Owed.{IsInOrder, owed, writes_for}
use zeus_os.InputLoop.Turns.{Turns, finished, reads, dispatches, Turns-owed}

abbrev press : CookEvent
press = record {
  time = record { seconds = 0; microseconds = 0 };
  file_path = 0;
  type = 1;
  x = 3;
  y = 4;
  key = 0;
  pressure = 1;
  track_id = 0;
  touch_major = 0;
}

abbrev listener : ListenerDesc
listener = record {
  address = 100;
  type = 1;
  uid = 7;
  fd = 11;
  name = none;
  handle = 5;
  death = 200;
}

abbrev manager : Process Listening
manager = record {
  mem = λ a. 0;
  sent = [];
  threads = 0;
  service = record { listeners = listener ∷ []; mallocs = []; dups = []; writes = [] };
}

abbrev quiet_station : Station
quiet_station = record { pool = new_pool; heap = []; manager = manager }

abbrev read_station : Station
read_station = hand_over 0 press quiet_station

abbrev served_station : Station
served_station = record {
  pool = new_pool;
  heap = press ∷ [];
  manager = dispatch_event press manager;
}

one_event : Turns quiet_station (press ∷ []) served_station
unfolding hand_over hand_over_all reader_round run_task after_look dispatch_round look add_task
    signal
one_event =
    reads (λ n. n) 1 (press ∷ press ∷ []) [] quiet_station read_station served_station refl refl
      (dispatches [] read_station served_station served_station refl (finished served_station))

quiet_station-IsInOrder : IsInOrder quiet_station
quiet_station-IsInOrder = record { made = tt; unlimited = refl }

Turns-owed_example :
    owed served_station
    ≡ owed quiet_station ++ writes_for quiet_station.manager.service.listeners (press ∷ [])
Turns-owed_example =
    Turns-owed quiet_station served_station (press ∷ []) one_event quiet_station-IsInOrder
