-- ===== src/InotifyDevice/Notices.antt =====
-- The events that processCreate and processRemove of frameworks/inputmanager/InotifyDevice.cpp
-- put into the array of their caller.
use zeus_os.Base.{
  ℕ, zero, suc, ◌≤◌, ◌<◌, ◌≡◌, ◌≢◌, refl, sym, subst, inl, inr, true, false, Bool, Bool-cases,
  Option-cases, none, some, List, [], ◌∷◌, ◌++◌, arith, ◌==◌, if◌then◌else◌, length, take,
  get_elem?,
}
use zeus_os.Binder.{Outcome, done, ◌>>=◌, Returns, Returns-bind}
use zeus_os.EventDevice.{Timeval, CookEvent, write_event}
use zeus_os.FileSystem.{
  FilePath, FileSystem, is_dir, is_reg_file, is_char_device, is_blk_device, entry_path, starts_with,
  event_prefix,
}
use zeus_os.InotifyDevice.{
  DirectoryPathDesc, Inotify, Noticed, find_wd, attach_device, process_create, process_remove,
  walk_fuel,
}
use zeus_os.InotifyDevice.Trees.{IsShallow}
use zeus_os.InotifyDevice.Walks.{add_watch_directory_r-grow}

pub Returns-if {ℓ} :
    {A : Type ℓ} (b : Bool) (o o' : Outcome A) (Q : A → Type 0)
    → (b ≡ true → Returns o Q)
    → Returns o' Q
    → Returns (if b then o else o') Q
Returns-if true o o' Q h k = h refl
Returns-if false o o' Q h k = k

-- One event of the array is another, in its place.
pub record IsWritten (i : ℕ) (f : CookEvent → CookEvent) (events es : List CookEvent) : Type 0 where
  pub size : length es ≡ length events
  pub at : (c : CookEvent) → get_elem? events i ≡ some c → get_elem? es i ≡ some (f c)

pub write_event-IsWritten :
    (i : ℕ) (f : CookEvent → CookEvent) (events : List CookEvent)
    → i < length events
    → Returns (write_event i f events) (IsWritten i f events)
unfolding write_event
write_event-IsWritten i f [] l = absurd (omega arith)
write_event-IsWritten zero f (c ∷ cs) l = record { size = refl; at = λ d e. grind arith }
write_event-IsWritten (suc i) f (c ∷ cs) l =
    Returns-bind (write_event i f cs) (λ cs'. done (c ∷ cs')) (IsWritten i f cs)
      (IsWritten (suc i) f (c ∷ cs)) (write_event-IsWritten i f cs (omega arith))
      (λ es w. record { size = omega (arith, w.size); at = w.at })

length-take : (n : ℕ) (xs : List ℕ) → length (take n xs) ≤ n
length-take zero xs = omega arith
length-take (suc n) [] = omega arith
length-take (suc n) (x ∷ xs) = omega (arith, length-take n xs)

length-entry_path : (dir name : FilePath) → length (entry_path dir name) ≤ 255
unfolding entry_path
length-entry_path dir name = length-take 255 (dir ++ 47 ∷ name)

-- A watch that is known stays known.
abbrev pub IsKnown : ℕ → Inotify → Type 0
IsKnown wd s = find_wd wd s.watching.descs ≢ none

find_wd-append :
    (wd : ℕ) (ds vs : List DirectoryPathDesc) → find_wd wd ds ≢ none → find_wd wd (ds ++ vs) ≢ none
unfolding find_wd
find_wd-append wd [] vs k = absurd (k refl)
find_wd-append wd (d ∷ ds) vs k = elim (Bool-cases (d.wd == wd)) [
  | inl y ↦ rw y (λ e. cc)
  | inr n ↦ rw n (find_wd-append wd ds vs (λ e. k (rw (find_wd, n) e)))
]

-- At most one more event, in the array as it is, and no watch forgotten.
pub record IsNoticed (events : List CookEvent) (s : Inotify) (n : Noticed) : Type 0 where
  pub few : n.ret ≤ 1
  pub size : length n.events ≡ length events
  pub known : (wd : ℕ) → IsKnown wd s → IsKnown wd n.state

-- Every character device can be opened.
abbrev pub AreOpen : FileSystem → Type 0
AreOpen fs = (path : FilePath) → is_char_device fs path ≡ true → fs.open_rdwr path ≢ none

attach_device-opened :
    (fs : FileSystem) (name path : FilePath) (s : Inotify)
    → fs.open_rdwr path ≢ none
    → ((attach_device fs name path s).0 ≡ 1)
      × ((attach_device fs name path s).1.watching ≡ s.watching)
unfolding attach_device
attach_device-opened fs name path s o = elim (Bool-cases (starts_with event_prefix name)) [
  | inr n ↦ rw n (refl, refl)
  | inl y ↦ elim (Option-cases (fs.open_rdwr path)) [
    | inl closed ↦ absurd (o closed)
    | inr (fd, e) ↦ rw (y, e) (refl, refl)
  ]
]

after_fill :
    (cev : ℕ) (f : CookEvent → CookEvent) (events : List CookEvent) (s : Inotify)
    (k : List CookEvent → Outcome Noticed)
    → cev < length events
    → ((es : List CookEvent) → length es ≡ length events → Returns (k es) (IsNoticed events s))
    → Returns (write_event cev f events >>= k) (IsNoticed events s)
after_fill cev f events s k l h =
    Returns-bind (write_event cev f events) k (IsWritten cev f events) (IsNoticed events s)
      (write_event-IsWritten cev f events l) (λ es w. h es w.size)

module _ (fs : FileSystem) (shallow : IsShallow fs) (open_all : AreOpen fs) where
  pub process_create-IsNoticed :
      (str_tmp : ℕ) (now : Timeval) (wd : ℕ) (name : FilePath) (cev : ℕ) (events : List CookEvent)
      (s : Inotify)
      → cev < length events
      → IsKnown wd s
      → Returns (process_create fs str_tmp now wd name cev events s) (IsNoticed events s)
  unfolding process_create
  process_create-IsNoticed str_tmp now wd name cev events s l k =
      elim (Option-cases (find_wd wd s.watching.descs)) [
        | inl unknown ↦ absurd (k unknown)
        | inr (d, e) ↦
            let path = entry_path d.path name in
            let Q = IsNoticed events s in
            rw (e, process_create)
              (Returns-if (is_dir fs path) _ _ Q
                (λ _. after_fill cev _ events s _ l (λ es size.
                  rw
                    (add_watch_directory_r-grow fs shallow walk_fuel 0 path s.watching
                      (length-entry_path d.path name) (omega arith))
                    (record {
                      few = omega arith;
                      size = size;
                      known = λ x h. find_wd-append x s.watching.descs _ h;
                    })))
                (Returns-if (is_reg_file fs path) _ _ Q
                  (λ _.
                    after_fill cev _ events s _ l
                      (λ es size. record { few = omega arith; size = size; known = λ _ h. h }))
                  (Returns-if (is_char_device fs path) _ _ Q
                    (λ c. after_fill cev _ events s _ l (λ es size.
                      let (one, same) = attach_device-opened fs name path s (open_all path c) in
                      record {
                        few = omega (arith, one);
                        size = size;
                        known = λ x h. subst (λ w. find_wd x w.descs ≢ none) (sym same) h;
                      }))
                    (Returns-if (is_blk_device fs path) _ _ Q
                      (λ _.
                        after_fill cev _ events s _ l
                          (λ es size. record { few = omega arith; size = size; known = λ _ h. h }))
                      (record { few = omega arith; size = refl; known = λ _ h. h })))))
      ]

pub process_remove-IsNoticed :
    (str_tmp : ℕ) (now : Timeval) (wd : ℕ) (name : FilePath) (cev : ℕ) (events : List CookEvent)
    (s : Inotify)
    → cev < length events
    → IsKnown wd s
    → Returns (process_remove str_tmp now wd name cev events s) (IsNoticed events s)
unfolding process_remove
process_remove-IsNoticed str_tmp now wd name cev events s l k =
    elim (Option-cases (find_wd wd s.watching.descs)) [
      | inl unknown ↦ absurd (k unknown)
      | inr (d, e) ↦
          rw (e, process_remove)
            (after_fill cev _ events s _ l
              (λ es size. record { few = omega arith; size = size; known = λ _ h. h }))
    ]
