-- ===== src/Binder/References.antt =====
-- The references that a process has asked for with binderAcquire and binderRelease of
-- system/binder/Binder.cpp, in the commands that it has sent.
use zeus_os.Base.{ℕ, ◌+◌, ◌≡◌, List, [], ◌∷◌, ◌++◌, arith, ◌==◌, if◌then◌else◌}
use zeus_os.Binder.Protocol.{Command, acquire, release}

-- How often a reference to `h` was acquired, and released.
abbrev pub acquired : ℕ → List Command → ℕ
acquired h [] = 0
acquired h (acquire g ∷ cs) = (if g == h then 1 else 0) + acquired h cs
acquired h (_ ∷ cs) = acquired h cs

abbrev pub released : ℕ → List Command → ℕ
released h [] = 0
released h (release g ∷ cs) = (if g == h then 1 else 0) + released h cs
released h (_ ∷ cs) = released h cs

pub acquired-append :
    (h : ℕ) (cs ds : List Command) → acquired h (cs ++ ds) ≡ acquired h cs + acquired h ds
acquired-append h [] ds = omega arith
acquired-append h (acquire g ∷ cs) ds = omega (arith, acquired-append h cs ds)
acquired-append h (_ ∷ cs) ds = acquired-append h cs ds

pub released-append :
    (h : ℕ) (cs ds : List Command) → released h (cs ++ ds) ≡ released h cs + released h ds
released-append h [] ds = omega arith
released-append h (release g ∷ cs) ds = omega (arith, released-append h cs ds)
released-append h (_ ∷ cs) ds = released-append h cs ds
