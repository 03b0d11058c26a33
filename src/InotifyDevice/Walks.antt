-- ===== src/InotifyDevice/Walks.antt =====
-- What addWatchDirectory_R and delWatchDirectory_R of frameworks/inputmanager/InotifyDevice.cpp do to
-- the list of watched directories.
use zeus_os.Base.{
  ℕ, zero, suc, ◌+◌, ◌≤◌, ◌≡◌, refl, sym, ap, ◌∙◌, ◌⊎◌, ◌↔◌, inl, inr, true, Bool-cases,
  Option-cases, take, none, some, List, [], ◌∷◌, ◌++◌, arith, length, Any-append,
}
use mathlib.Core.List.{append-nil, append_assoc}
use zeus_os.Binder.{Outcome, done, Returns}
use zeus_os.FileSystem.{FilePath, FileSystem, is_dir, entry_path, is_hidden}
use zeus_os.InotifyDevice.{
  DirectoryPathDesc, Watching, minus_one, each_directory, add_watch_directory_r, walk_entries,
  watch, walk_fuel,
}
use zeus_os.InotifyDevice.Trees.{
  Reaches, IsShallow, IsWatched, visits, visits_below, visits_iff-Reaches, entry_path_longer,
}

abbrev pub grow : List DirectoryPathDesc → Watching → Watching
grow vs w = record w { descs = w.descs ++ vs }

pub grow_twice :
    (us vs : List DirectoryPathDesc) (w : Watching) → grow vs (grow us w) ≡ grow (us ++ vs) w
grow_twice us vs w = ap (λ ds. record w { descs = ds }) (append_assoc w.descs us vs)

grow_none : (w : Watching) → w ≡ grow [] w
grow_none w = ap (λ ds. record w { descs = ds }) (sym (append-nil w.descs))

-- What a walk returns: -1 where the directory cannot be watched, or opened.
unfoldable pub walk_ret : FileSystem → ℕ → FilePath → ℕ
walk_ret fs held path = elim (fs.add_watch path) [
  | none ↦ minus_one
  | some wd ↦ elim (fs.opendir held path) [ none ↦ minus_one | some names ↦ 0 ]
]

pub take-length : (xs : List ℕ) (n : ℕ) → length xs ≡ n → (ys : List ℕ) → take n (xs ++ ys) ≡ xs
take-length [] n e ys = rw (← e) refl
take-length (x ∷ xs) n e ys = rw (← e, take-length xs (length xs) refl ys) refl

pub walk_closed :
    (recur : FilePath → Watching → Outcome (ℕ × Watching)) (fs : FileSystem) (held : ℕ)
    (path : FilePath) (w : Watching)
    → fs.opendir held path ≡ none
    → walk_entries recur fs held path w ≡ done (minus_one, w)
unfolding walk_entries
walk_closed recur fs held path w e = rw (e, walk_entries) refl

pub walk_opened :
    (recur : FilePath → Watching → Outcome (ℕ × Watching)) (fs : FileSystem) (held : ℕ)
    (path : FilePath) (w v : Watching) (names : List FilePath)
    → fs.opendir held path ≡ some names
    → each_directory recur fs path names w ≡ done v
    → walk_entries recur fs held path w ≡ done (0, v)
unfolding walk_entries
walk_opened recur fs held path w v names e o = rw (e, walk_entries, o) refl

module _ (fs : FileSystem) where
  each_directory-grow :
      (held : ℕ) (recur : FilePath → Watching → Outcome (ℕ × Watching))
      (seen : FilePath → List DirectoryPathDesc) (path : FilePath) (names : List FilePath)
      (w : Watching)
      → ((name : FilePath) (v : Watching)
          → is_dir fs (entry_path path name) ≡ true
          → recur (entry_path path name) v
            ≡ done (walk_ret fs held (entry_path path name), grow (seen (entry_path path name)) v))
      → each_directory recur fs path names w ≡ done (grow (visits_below seen fs path names) w)
  unfolding each_directory visits_below
  each_directory-grow held recur seen path [] w ih = ap done (grow_none w)
  each_directory-grow held recur seen path (name ∷ names) w ih =
      elim (Bool-cases (is_hidden name)) [
        | inl y ↦ rw y (each_directory-grow held recur seen path names w ih)
        | inr n ↦ elim (Bool-cases (is_dir fs (entry_path path name))) [
          | inr k ↦ rw (n, k) (each_directory-grow held recur seen path names w ih)
          | inl d ↦
              rw (n, d, ih name w d)
                (each_directory-grow held recur seen path names
                    (grow (seen (entry_path path name)) w) ih
                  ∙ ap done (
                      grow_twice (seen (entry_path path name)) (visits_below seen fs path names) w))
        ]
      ]

  module _ (shallow : IsShallow fs) where
    pub add_watch_directory_r-grow :
        (f held : ℕ) (path : FilePath) (w : Watching)
        → length path ≤ 255
        → 256 ≤ f + length path
        → add_watch_directory_r f fs held path w
          ≡ done (walk_ret fs held path, grow (visits f fs held path) w)
    unfolding add_watch_directory_r visits walk_ret
    add_watch_directory_r-grow zero held path w l n = absurd (omega arith)
    add_watch_directory_r-grow (suc f) held path w l n = elim (Option-cases (fs.add_watch path)) [
      | inl refused ↦
          rw (refused, add_watch_directory_r, visits, walk_ret)
            (ap (λ v. done (minus_one, v)) (grow_none w))
      | inr (wd, e) ↦ elim (Option-cases (fs.opendir held path)) [
        | inl refused ↦
            rw (e, refused, add_watch_directory_r, visits, walk_ret)
              (walk_closed (add_watch_directory_r f fs (suc held)) fs held path (watch wd path w)
                refused)
        | inr (names, o) ↦
            rw (e, o, add_watch_directory_r, visits, walk_ret)
              (walk_opened (add_watch_directory_r f fs (suc held)) fs held path (watch wd path w) _
                  names o
                  (each_directory-grow (suc held) (add_watch_directory_r f fs (suc held))
                    (visits f fs (suc held)) path names (watch wd path w)
                    (λ name v d.
                      add_watch_directory_r-grow f (suc held) (entry_path path name) v
                        (omega (arith, shallow _ d))
                        (omega (arith, entry_path_longer fs path name shallow d))))
                ∙ ap (λ v. done (0, v)) (grow_twice (record { wd = wd; path = path } ∷ []) _ w))
      ]
    ]

-- addWatchDirectory_R comes to an end on every tree, and afterwards watches what was watched before
-- and the directories that its path reaches, through visible entries, and no other: those below one
-- that cannot be watched or opened are left out. The path has at most 255 characters, and no
-- directory has a path of 255 characters or more.
pub add_watch_directory_r-Reaches :
    (fs : FileSystem) (path : FilePath) (w : Watching)
    → IsShallow fs
    → length path ≤ 255
    → Returns (add_watch_directory_r walk_fuel fs 0 path w) (λ x.
      (target : FilePath)
      → IsWatched target x.1.descs ↔ (IsWatched target w.descs ⊎ Reaches fs 0 path target))
add_watch_directory_r-Reaches fs path w shallow l =
    rw (add_watch_directory_r-grow fs shallow walk_fuel 0 path w l (omega arith)) (λ target.
      let split = Any-append (λ v. v.path ≡ target) w.descs (visits walk_fuel fs 0 path) in
      let tree = visits_iff-Reaches fs shallow walk_fuel 0 path target l (omega arith) in
      (
        λ h. elim (split.0 h) [ inl k ↦ inl k | inr k ↦ inr (tree.0 k) ],
        elim [ inl k ↦ split.1 (inl k) | inr k ↦ split.1 (inr (tree.1 k)) ],
      ))
