-- ===== src/InotifyDevice/Trees.antt =====
-- The tree of directories that addWatchDirectory_R of frameworks/inputmanager/InotifyDevice.cpp
-- walks, as a relation on paths and as the list of its visits.
use zeus_os.Base.{
  ℕ, zero, suc, ◌+◌, ◌≤◌, ◌<◌, ◌≡◌, refl, subst, ◌↔◌, inl, inr, true, false, Bool-cases,
  Option-cases, none, some, List, [], ◌∷◌, ◌++◌, arith, length, length-append, if◌then◌else◌, Any,
  Any-append, take,
}
use zeus_os.FileSystem.{FilePath, FileSystem, is_dir, entry_path, is_hidden}
use zeus_os.InotifyDevice.{DirectoryPathDesc}

-- From a directory that can be watched and, beside those above it, opened to the directories of its
-- visible entries.
pub data Reaches (fs : FileSystem) : ℕ → FilePath → FilePath → Type 0 where
  here :
      (held : ℕ) (path : FilePath) (wd : ℕ)
      → fs.add_watch path ≡ some wd
      → Reaches fs held path path
  below :
      (held : ℕ) (path name target : FilePath) (wd : ℕ) (names : List FilePath)
      → fs.add_watch path ≡ some wd
      → fs.opendir held path ≡ some names
      → Any (λ n. n ≡ name) names
      → is_hidden name ≡ false
      → is_dir fs (entry_path path name) ≡ true
      → Reaches fs (suc held) (entry_path path name) target
      → Reaches fs held path target

-- No directory has a path that fills `strTmp`.
abbrev pub IsShallow : FileSystem → Type 0
IsShallow fs = (path : FilePath) → is_dir fs path ≡ true → length path < 255

abbrev pub IsWatched : FilePath → List DirectoryPathDesc → Type 0
IsWatched path ds = Any (λ d. d.path ≡ path) ds

unfoldable pub visits_below :
    (FilePath → List DirectoryPathDesc)
    → FileSystem
    → FilePath
    → List FilePath
    → List DirectoryPathDesc
visits_below recur fs path [] = []
visits_below recur fs path (name ∷ names) =
    let rest = visits_below recur fs path names in
    if is_hidden name
    then rest
    else if is_dir fs (entry_path path name)
    then recur (entry_path path name) ++ rest
    else rest

unfoldable pub visits : ℕ → FileSystem → ℕ → FilePath → List DirectoryPathDesc
visits zero fs held path = []
visits (suc f) fs held path = elim (fs.add_watch path) [
  | none ↦ []
  | some wd ↦ record { wd = wd; path = path } ∷ (elim (fs.opendir held path) [
    | none ↦ []
    | some names ↦ visits_below (visits f fs (suc held)) fs path names
  ])
]

length-take : (n : ℕ) (xs : List ℕ) → length (take n xs) < n → take n xs ≡ xs
length-take zero xs h = absurd (omega arith)
length-take (suc n) [] h = refl
length-take (suc n) (x ∷ xs) h = rw (length-take n xs (omega arith)) refl

-- The path of a directory below is longer, since it is not cut off.
pub entry_path_longer :
    (fs : FileSystem) (path name : FilePath)
    → IsShallow fs
    → is_dir fs (entry_path path name) ≡ true
    → length path + 1 ≤ length (entry_path path name)
unfolding entry_path
entry_path_longer fs path name s d =
    let whole = length-take 255 (path ++ 47 ∷ name) (s _ d) in
    rw whole (omega (arith, length-append path (47 ∷ name)))

module _ (fs : FileSystem) where
  -- A visible entry that is a directory, from which the target is reached.
  abbrev LeadsTo : ℕ → FilePath → FilePath → List FilePath → Type 0
  LeadsTo held path target names =
      (name : FilePath) × Any (λ n. n ≡ name) names
      × (is_hidden name ≡ false)
      × (is_dir fs (entry_path path name) ≡ true)
      × Reaches fs (suc held) (entry_path path name) target

  leads_later :
      (held : ℕ) (path target name : FilePath) (names : List FilePath)
      → LeadsTo held path target names
      → LeadsTo held path target (name ∷ names)
  leads_later held path target name names (x, m, n, d, r) = (x, inr m, n, d, r)

  visits_below-LeadsTo :
      (held : ℕ) (recur : FilePath → List DirectoryPathDesc) (path target : FilePath)
      (names : List FilePath)
      → ((q : FilePath) → IsWatched target (recur q) → Reaches fs (suc held) q target)
      → IsWatched target (visits_below recur fs path names)
      → LeadsTo held path target names
  unfolding visits_below
  visits_below-LeadsTo held recur path target [] ih h = absurd h
  visits_below-LeadsTo held recur path target (name ∷ names) ih h =
      elim (Bool-cases (is_hidden name)) [
        | inl y ↦
            leads_later held path target name names
              (visits_below-LeadsTo held recur path target names ih (rw (visits_below, y) at h))
        | inr n ↦ elim (Bool-cases (is_dir fs (entry_path path name))) [
          | inr k ↦
              leads_later held path target name names (
                visits_below-LeadsTo held recur path target names ih (rw (visits_below, n, k) at h))
          | inl d ↦
              elim ((Any-append (λ v. v.path ≡ target) (recur (entry_path path name))
                  (visits_below recur fs path names)).0
                (rw (visits_below, n, d) at h)) [
                  | inl k ↦ (name, inl refl, n, d, ih _ k)
                  | inr k ↦
                      leads_later held path target name names
                        (visits_below-LeadsTo held recur path target names ih k)
                ]
        ]
      ]

  visits-Reaches :
      (f held : ℕ) (path target : FilePath)
      → IsWatched target (visits f fs held path)
      → Reaches fs held path target
  unfolding visits
  visits-Reaches zero held path target h = absurd h
  visits-Reaches (suc f) held path target h = elim (Option-cases (fs.add_watch path)) [
    | inl refused ↦ absurd (rw (refused, visits) at h)
    | inr (wd, w) ↦ elim (rw (w, visits) at h) [
      | inl e ↦ subst (Reaches fs held path) e (here held path wd w)
      | inr k ↦ elim (Option-cases (fs.opendir held path)) [
        | inl refused ↦ absurd (rw refused at k)
        | inr (names, o) ↦
            let (name, m, n, d, r) =
              visits_below-LeadsTo held (visits f fs (suc held)) path target names
                (λ q. visits-Reaches f (suc held) q target) (rw o at k) in
            below held path name target wd names w o m n d r
      ]
    ]
  ]

  visits_below-IsWatched :
      (recur : FilePath → List DirectoryPathDesc) (path target name : FilePath)
      (names : List FilePath)
      → Any (λ n. n ≡ name) names
      → is_hidden name ≡ false
      → is_dir fs (entry_path path name) ≡ true
      → IsWatched target (recur (entry_path path name))
      → IsWatched target (visits_below recur fs path names)
  unfolding visits_below
  visits_below-IsWatched recur path target name [] m n d k = absurd m
  visits_below-IsWatched recur path target name (x ∷ names) (inl e) n d k =
      rw (e, n, d)
        ((Any-append (λ v. v.path ≡ target) (recur (entry_path path name))
            (visits_below recur fs path names)).1
          (inl k))
  visits_below-IsWatched recur path target name (x ∷ names) (inr m) n d k =
      let rest = visits_below-IsWatched recur path target name names m n d k in
      elim (Bool-cases (is_hidden x)) [
        | inl y ↦ rw y rest
        | inr z ↦ elim (Bool-cases (is_dir fs (entry_path path x))) [
          | inr o ↦ rw (z, o) rest
          | inl y ↦
              rw (z, y)
                ((Any-append (λ v. v.path ≡ target) (recur (entry_path path x))
                    (visits_below recur fs path names)).1
                  (inr rest))
        ]
      ]

  module _ (shallow : IsShallow fs) where
    visits-IsWatched :
        (f held : ℕ) (path target : FilePath)
        → length path ≤ 255
        → 256 ≤ f + length path
        → Reaches fs held path target
        → IsWatched target (visits f fs held path)
    unfolding visits
    visits-IsWatched zero held path target l n r = absurd (omega arith)
    visits-IsWatched (suc f) held path target l n (here _ _ wd w) = rw (w, visits) (inl refl)
    visits-IsWatched (suc f) held path target l n (below _ _ name _ wd names w o m v d r) =
        rw (w, o, visits)
          (inr (
            visits_below-IsWatched (visits f fs (suc held)) path target name names m v d (
              visits-IsWatched f (suc held) (entry_path path name) target
                (omega (arith, shallow _ d))
                (omega (arith, entry_path_longer fs path name shallow d)) r)))

    -- The visits are the directories that the path reaches.
    pub visits_iff-Reaches :
        (f held : ℕ) (path target : FilePath)
        → length path ≤ 255
        → 256 ≤ f + length path
        → IsWatched target (visits f fs held path) ↔ Reaches fs held path target
    visits_iff-Reaches f held path target l n =
        (visits-Reaches f held path target, visits-IsWatched f held path target l n)
