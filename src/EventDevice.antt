-- ===== src/EventDevice.antt =====
-- EventDevice::process of frameworks/inputmanager/EventDevice.cpp: from the events of the kernel to
-- those of the listeners (struct CookEvent of include/frameworks/InputManager.h).
pub mod Reports
pub mod Bounds
pub mod Examples
use zeus_os.Base.{
  ℕ, zero, suc, ◌+◌, ◌/◌, ◌%◌, ◌^◌, Bool, true, false, ◌&&◌, ◌||◌, Option, none, some, List, [],
  ◌∷◌, ltb, leb, ◌==◌, if◌then◌else◌,
}
use zeus_os.Binder.{Outcome, done, fault, ◌>>=◌}

-- struct timeval
pub record Timeval : Type 0 where
  pub seconds : ℕ
  pub microseconds : ℕ

-- struct CookEvent; an int is its bit pattern.
pub record CookEvent : Type 0 where
  pub time : Timeval
  pub file_path : ℕ
  pub type : ℕ
  pub x : ℕ
  pub y : ℕ
  pub key : ℕ
  pub pressure : ℕ
  pub track_id : ℕ
  pub touch_major : ℕ

-- struct input_event of the kernel, 16 bytes, without its own time.
pub record InputEvent : Type 0 where
  pub type : ℕ
  pub code : ℕ
  pub value : ℕ

-- The codes of linux/input.h and of errno.h that the code uses.
abbrev pub ev_syn : ℕ
ev_syn = 0

abbrev pub ev_key : ℕ
ev_key = 1

abbrev pub ev_abs : ℕ
ev_abs = 3

abbrev pub syn_report : ℕ
syn_report = 0

abbrev pub btn_touch : ℕ
btn_touch = 0x14a

abbrev pub abs_mt_touch_major : ℕ
abs_mt_touch_major = 0x30

abbrev pub abs_mt_position_x : ℕ
abs_mt_position_x = 0x35

abbrev pub abs_mt_position_y : ℕ
abs_mt_position_y = 0x36

abbrev pub abs_mt_tracking_id : ℕ
abs_mt_tracking_id = 0x39

abbrev pub eintr : ℕ
eintr = 4

abbrev pub eagain : ℕ
eagain = 11

abbrev pub enodev : ℕ
enodev = 19

-- TOUCHSCREEN and KEYEVENT
abbrev pub touchscreen : ℕ
touchscreen = 1

abbrev pub keyevent : ℕ
keyevent = 256

unfoldable pub cook_touch_event : InputEvent → CookEvent → CookEvent
cook_touch_event iev c =
    let t = record c { type = touchscreen } in
    if iev.code == abs_mt_position_x
    then record t { x = iev.value; pressure = 1 }
    else if iev.code == abs_mt_position_y
    then record t { y = iev.value }
    else if iev.code == abs_mt_touch_major
    then record t { touch_major = iev.value }
    else if iev.code == abs_mt_tracking_id
    then record t { track_id = iev.value }
    else t

unfoldable pub cook_key_event : InputEvent → CookEvent → CookEvent
cook_key_event iev c = record c {
  key = iev.code;
  type = if iev.code == btn_touch then touchscreen else keyevent;
}

-- A write through `cev`; outside of the array its behaviour is undefined.
unfoldable pub write_event : ℕ → (CookEvent → CookEvent) → List CookEvent → Outcome (List CookEvent)
write_event i f [] = fault
write_event zero f (c ∷ cs) = done (f c ∷ cs)
write_event (suc i) f (c ∷ cs) = write_event i f cs >>= λ cs'. done (c ∷ cs')

-- The array of the caller, `iRet`, which is also how far `cev` has moved, and the static
-- `iFlagPressure`.
pub record Cooking : Type 0 where
  pub events : List CookEvent
  pub count : ℕ
  pub flag_pressure : ℕ

abbrev edit : (CookEvent → CookEvent) → Cooking → Outcome Cooking
edit f s = write_event s.count f s.events >>= λ cs. done (record s { events = cs })

abbrev pub is_report : InputEvent → Bool
is_report iev = iev.type == ev_syn && iev.code == syn_report

-- The case EV_SYN with SYN_REPORT, in front of the test on iSize; `clock` says what gettimeofday
-- gives for an event of the array.
unfoldable pub report : (ℕ → Timeval) → Cooking → Outcome Cooking
report clock s =
    let flag = (s.flag_pressure + 1) % 2 ^ 32 in
    write_event s.count
      (λ c. record c { pressure = if flag == 2 then 0 else c.pressure; time = clock s.count })
      s.events
    >>= λ cs. done (record { events = cs; count = suc s.count; flag_pressure = flag })

-- The switch on one event.
unfoldable pub cook_event : (ℕ → Timeval) → InputEvent → Cooking → Outcome Cooking
cook_event clock iev s =
    if iev.type == ev_abs
    then (edit (cook_touch_event iev) s >>= λ s'. done (record s' { flag_pressure = 0 }))
    else if iev.type == ev_key
    then edit (cook_key_event iev) s
    else if is_report iev
    then report clock s
    else done s

-- The loop over `readBuffer`, whose 256 entries are `buffer`: `n` events are left, the next is `i`.
unfoldable pub cook_events :
    ℕ → ℕ → (ℕ → InputEvent) → (ℕ → Timeval) → ℕ → Cooking → Outcome Cooking
cook_events zero i buffer clock size s = done s
cook_events (suc n) i buffer clock size s = elim (leb 256 i) [
  | true ↦ fault
  | false ↦ cook_event clock (buffer i) s >>= λ s'.
      elim (is_report (buffer i) && s'.count == size) [
        | true ↦ done s'
        | false ↦ cook_events n (i + 1) buffer clock size s'
      ]
]

-- What read returns: an errno, or how many bytes.
pub data ReadResult : Type 0 where
  failed : ℕ → ReadResult
  got : ℕ → ReadResult

-- What process returns, -1 as a bit pattern, with the array and the static as it leaves them.
pub record Processed : Type 0 where
  pub ret : ℕ
  pub cooked : Cooking

abbrev start_cooking : List CookEvent → ℕ → Cooking
start_cooking events flag = record { events = events; count = 0; flag_pressure = flag }

-- From `count` on.
unfoldable pub process_events :
    ℕ → (ℕ → InputEvent) → (ℕ → Timeval) → List CookEvent → ℕ → ℕ → Outcome Processed
process_events count buffer clock events size flag =
    cook_events count 0 buffer clock size (start_cooking events flag) >>= λ s.
    done (record { ret = s.count; cooked = s })

-- -1
abbrev pub minus_one : ℕ
minus_one = 0xffffffff

abbrev refuse : List CookEvent → ℕ → Outcome Processed
refuse events flag = done (record { ret = minus_one; cooked = start_cooking events flag })

-- After EAGAIN and EINTR `readSize` is still -1, and `size_t(readSize)` is divided.
unfoldable pub process :
    ReadResult → (ℕ → InputEvent) → (ℕ → Timeval) → List CookEvent → ℕ → ℕ → Outcome Processed
process (failed errno) buffer clock events size flag =
    if errno == enodev
    then refuse events flag
    else if errno == eagain || errno == eintr
    then process_events (minus_one / 16) buffer clock events size flag
    else refuse events flag
process (got bytes) buffer clock events size flag =
    if bytes == 0
    then refuse events flag
    else if bytes % 16 == 0
    then process_events (bytes / 16) buffer clock events size flag
    else refuse events flag
