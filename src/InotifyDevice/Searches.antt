-- ===== src/InotifyDevice/Searches.antt =====
-- The searches of delWatchDirectory_R of frameworks/inputmanager/InotifyDevice.cpp in a list that
-- addWatchDirectory_R has grown.
use zeus_os.Base.{
  ℕ, zero, suc, ◌≡◌, ◌≢◌, refl, ap, ◌∙◌, inl, inr, Bool-cases, Option-cases, none, some, List, [],
  ◌∷◌, ◌++◌, map, arith, All,
}
use zeus_os.ServiceManager.{bytes_eq}
use zeus_os.ServiceManager.Nodes.{bytes_eq_iff}
use zeus_os.FileSystem.{FilePath, FileSystem, is_dir, entry_path, is_hidden}
use zeus_os.InotifyDevice.{DirectoryPathDesc, find_path, remove_path}
use zeus_os.InotifyDevice.Trees.{IsWatched, visits, visits_below}

-- The watches of descriptions.
abbrev pub wds : List DirectoryPathDesc → List ℕ
wds ds = map (λ d. d.wd) ds

pub wds-append : (us vs : List DirectoryPathDesc) → wds (us ++ vs) ≡ wds us ++ wds vs
wds-append [] vs = refl
wds-append (u ∷ us) vs = ap (λ ws. u.wd ∷ ws) (wds-append us vs)

pub All-append {ℓ} :
    {A : Type ℓ} (P : A → Type 0) (xs ys : List A) → All P xs → All P ys → All P (xs ++ ys)
All-append P [] ys h k = k
All-append P (x ∷ xs) ys h k = (h.0, All-append P xs ys h.1 k)

-- None of the descriptions is about one of the paths of the others.
abbrev pub IsFresh : List DirectoryPathDesc → List DirectoryPathDesc → Type 0
IsFresh vs before = (target : FilePath) → IsWatched target vs → find_path target before ≡ none

pub find_path-behind :
    (path : FilePath) (before ds : List DirectoryPathDesc)
    → find_path path before ≡ none
    → (find_path path (before ++ ds) ≡ find_path path ds)
      × (remove_path path (before ++ ds) ≡ before ++ remove_path path ds)
unfolding find_path remove_path
find_path-behind path [] ds e = (refl, refl)
find_path-behind path (d ∷ before) ds e = ground (arith, find_path-behind path before ds)

pub find_path_head :
    (path : FilePath) (wd : ℕ) (ds : List DirectoryPathDesc)
    → (find_path path (record { wd = wd; path = path } ∷ ds)
        ≡ some (record { wd = wd; path = path }))
      × (remove_path path (record { wd = wd; path = path } ∷ ds) ≡ ds)
unfolding find_path remove_path
find_path_head path wd ds = rw ((bytes_eq_iff path path).1 refl) (refl, refl)

module _ (fs : FileSystem) where
  abbrev pub IsWatchable : DirectoryPathDesc → Type 0
  IsWatchable d = fs.add_watch d.path ≢ none

  pub find_path-IsWatchable :
      (path : FilePath) (ds : List DirectoryPathDesc)
      → All IsWatchable ds
      → fs.add_watch path ≡ none
      → find_path path ds ≡ none
  unfolding find_path
  find_path-IsWatchable path [] a e = refl
  find_path-IsWatchable path (d ∷ ds) a e = elim (Bool-cases (bytes_eq d.path path)) [
    | inl y ↦ absurd (a.0 (ap fs.add_watch ((bytes_eq_iff d.path path).0 y) ∙ e))
    | inr n ↦ rw n (find_path-IsWatchable path ds a.1 e)
  ]

  pub visits_below-IsWatchable :
      (seen : FilePath → List DirectoryPathDesc) (path : FilePath) (names : List FilePath)
      → ((q : FilePath) → All IsWatchable (seen q))
      → All IsWatchable (visits_below seen fs path names)
  unfolding visits_below
  visits_below-IsWatchable seen path [] a = tt
  visits_below-IsWatchable seen path (name ∷ names) a =
      let rest = visits_below-IsWatchable seen path names a in
      elim (Bool-cases (is_hidden name)) [
        | inl y ↦ rw y rest
        | inr n ↦ elim (Bool-cases (is_dir fs (entry_path path name))) [
          | inr k ↦ rw (n, k) rest
          | inl d ↦ rw (n, d) (All-append IsWatchable (seen (entry_path path name)) _ (a _) rest)
        ]
      ]

  pub visits-IsWatchable : (f held : ℕ) (path : FilePath) → All IsWatchable (visits f fs held path)
  unfolding visits
  visits-IsWatchable zero held path = tt
  visits-IsWatchable (suc f) held path = elim (Option-cases (fs.add_watch path)) [
    | inl refused ↦ rw (refused, visits) tt
    | inr (wd, e) ↦ elim (Option-cases (fs.opendir held path)) [
      | inl refused ↦ rw (e, refused, visits) ((λ n. cc), tt)
      | inr (names, o) ↦
          rw (e, o, visits)
            (
              (λ n. cc),
              visits_below-IsWatchable (visits f fs (suc held)) path names
                  (visits-IsWatchable f (suc held)),
            )
    ]
  ]
