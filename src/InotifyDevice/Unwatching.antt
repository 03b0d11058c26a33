-- ===== src/InotifyDevice/Unwatching.antt =====
-- delWatchDirectory_R of frameworks/inputmanager/InotifyDevice.cpp after addWatchDirectory_R.
use zeus_os.Base.{
  ℕ, zero, suc, ◌+◌, ◌≤◌, ◌≡◌, refl, sym, ap, ◌∙◌, inl, inr, true, Bool-cases, Option-cases, none,
  some, List, [], ◌∷◌, ◌++◌, map, arith, length, All, Any-append,
}
use mathlib.Core.List.{append-nil, append_assoc}
use zeus_os.Binder.{Outcome, done, Returns}
use zeus_os.FileSystem.{FilePath, FileSystem, is_dir, entry_path, is_hidden}
use zeus_os.InotifyDevice.{
  DirectoryPathDesc, Watching, minus_one, each_directory, walk_entries, add_watch_directory_r,
  del_watch_directory_r, find_path, walk_fuel,
}
use zeus_os.InotifyDevice.Trees.{
  Reaches, IsShallow, visits, visits_below, visits_iff-Reaches, entry_path_longer,
}
use zeus_os.InotifyDevice.Walks.{walk_closed, walk_opened, add_watch_directory_r-grow}
use zeus_os.InotifyDevice.Searches.{
  wds, wds-append, All-append, IsFresh, find_path-behind, find_path_head, IsWatchable,
  find_path-IsWatchable, visits_below-IsWatchable, visits-IsWatchable,
}

-- A list of descriptions, and the watches that were given up.
abbrev watching : List DirectoryPathDesc → List ℕ → Watching
watching ds r = record { descs = ds; removed = r }

unfoldable del_ret : FileSystem → ℕ → FilePath → ℕ
del_ret fs held path = elim (fs.add_watch path) [
  | none ↦ 0
  | some wd ↦ elim (fs.opendir held path) [ none ↦ minus_one | some names ↦ 0 ]
]

del_missing :
    (f : ℕ) (fs : FileSystem) (held : ℕ) (path : FilePath) (ds : List DirectoryPathDesc)
    (r : List ℕ)
    → find_path path ds ≡ none
    → del_watch_directory_r (suc f) fs held path (watching ds r) ≡ done (0, watching ds r)
unfolding del_watch_directory_r
del_missing f fs held path ds r e = rw (e, del_watch_directory_r) refl

del_found :
    (f : ℕ) (fs : FileSystem) (held : ℕ) (path : FilePath) (wd : ℕ)
    (before rest : List DirectoryPathDesc) (r : List ℕ)
    → find_path path before ≡ none
    → del_watch_directory_r
        (suc f)
        fs
        held
        path
        (watching (before ++ record { wd = wd; path = path } ∷ rest) r)
      ≡ walk_entries
          (del_watch_directory_r f fs (suc held))
          fs
          held
          path
          (watching (before ++ rest) (r ++ wd ∷ []))
unfolding del_watch_directory_r
del_found f fs held path wd before rest r e =
    let (found, removed) =
      find_path-behind path before (record { wd = wd; path = path } ∷ rest) e in
    rw
      (
        found ∙ (find_path_head path wd rest).0,
        del_watch_directory_r,
        removed ∙ ap (λ ds. before ++ ds) (find_path_head path wd rest).1,
      )
      refl

module _ (fs : FileSystem) (before : List DirectoryPathDesc) where
  -- A walk takes its visits out of the list from behind `before`.
  abbrev Takes :
      ℕ
      → (FilePath → Watching → Outcome (ℕ × Watching))
      → (FilePath → List DirectoryPathDesc)
      → FilePath
      → Type 0
  Takes held recur seen path =
      (tail : List DirectoryPathDesc) (r : List ℕ)
      → IsFresh (seen path) before
      → All (IsWatchable fs) tail
      → recur path (watching (before ++ (seen path ++ tail)) r)
        ≡ done (del_ret fs held path, watching (before ++ tail) (r ++ wds (seen path)))

  each_directory-Takes :
      (held : ℕ) (recur : FilePath → Watching → Outcome (ℕ × Watching))
      (seen : FilePath → List DirectoryPathDesc) (path : FilePath) (names : List FilePath)
      (tail : List DirectoryPathDesc) (r : List ℕ)
      → ((q : FilePath) → All (IsWatchable fs) (seen q))
      → ((name : FilePath)
          → is_dir fs (entry_path path name) ≡ true
          → Takes held recur seen (entry_path path name))
      → IsFresh (visits_below seen fs path names) before
      → All (IsWatchable fs) tail
      → each_directory recur fs path names
          (watching (before ++ (visits_below seen fs path names ++ tail)) r)
        ≡ done (watching (before ++ tail) (r ++ wds (visits_below seen fs path names)))
  unfolding each_directory visits_below
  each_directory-Takes held recur seen path [] tail r ws ih fresh a =
      ap (λ q. done (watching (before ++ tail) q)) (sym (append-nil r))
  each_directory-Takes held recur seen path (name ∷ names) tail r ws ih fresh a =
      elim (Bool-cases (is_hidden name)) [
        | inl y ↦ rw y (
            each_directory-Takes held recur seen path names tail r ws ih
              (λ t m. fresh t (rw (visits_below, y) m)) a)
        | inr n ↦ elim (Bool-cases (is_dir fs (entry_path path name))) [
          | inr k ↦
              rw (n, k)
                (each_directory-Takes held recur seen path names tail r ws ih
                  (λ t m. fresh t (rw (visits_below, n, k) m)) a)
          | inl d ↦
              let here = seen (entry_path path name) in
              let rest = visits_below seen fs path names in
              rw
                (
                  n,
                  d,
                  append_assoc here rest tail,
                  ih name d (rest ++ tail) r
                      (λ t m. fresh t (
                        rw (visits_below, n, d)
                          ((Any-append (λ v. v.path ≡ t) here rest).1 (inl m))))
                      (All-append (IsWatchable fs) rest tail
                        (visits_below-IsWatchable fs seen path names ws) a),
                )
                (each_directory-Takes held recur seen path names tail (r ++ wds here) ws ih
                    (λ t m. fresh t (
                      rw (visits_below, n, d) ((Any-append (λ v. v.path ≡ t) here rest).1 (inr m))))
                    a
                  ∙ ap (λ q. done (watching (before ++ tail) q))
                      (append_assoc r (wds here) (wds rest)
                        ∙ ap (λ q. r ++ q) (sym (wds-append here rest))))
        ]
      ]

  module _ (shallow : IsShallow fs) (watchable : All (IsWatchable fs) before) where
    del_watch_directory_r-Takes :
        (f held : ℕ) (path : FilePath)
        → length path ≤ 255
        → 256 ≤ f + length path
        → Takes held (del_watch_directory_r f fs held) (visits f fs held) path
    unfolding visits del_ret
    del_watch_directory_r-Takes zero held path l n tail r fresh a = absurd (omega arith)
    del_watch_directory_r-Takes (suc f) held path l n tail r fresh a =
        elim (Option-cases (fs.add_watch path)) [
          | inl refused ↦
              rw
                (
                  refused,
                  visits,
                  del_ret,
                  del_missing f fs held path (before ++ tail) r (
                      find_path-IsWatchable fs path (before ++ tail)
                        (All-append (IsWatchable fs) before tail watchable a) refused),
                )
                (ap (λ q. done (0, watching (before ++ tail) q)) (sym (append-nil r)))
          | inr (wd, e) ↦ elim (Option-cases (fs.opendir held path)) [
            | inl closed ↦
                rw (e, closed, visits, del_ret)
                  (del_found f fs held path wd before tail r
                      (fresh path (rw (e, closed, visits) (inl refl)))
                    ∙ walk_closed (del_watch_directory_r f fs (suc held)) fs held path _ closed)
            | inr (names, o) ↦
                rw (e, o, visits, del_ret)
                  (del_found f fs held path wd before _ r
                      (fresh path (rw (e, o, visits) (inl refl)))
                    ∙ walk_opened (del_watch_directory_r f fs (suc held)) fs held path _ _ names o (
                        each_directory-Takes (suc held) (del_watch_directory_r f fs (suc held))
                          (visits f fs (suc held)) path names tail (r ++ wd ∷ [])
                          (visits-IsWatchable fs f (suc held))
                          (λ name d.
                            del_watch_directory_r-Takes f (suc held) (entry_path path name)
                              (omega (arith, shallow _ d))
                              (omega (arith, entry_path_longer fs path name shallow d)))
                          (λ t m. fresh t (rw (e, o, visits) (inr m))) a)
                    ∙ ap (λ q. done (0, watching (before ++ tail) q)) (append_assoc r (wd ∷ []) _))
          ]
        ]

-- What addWatchDirectory_R began to watch delWatchDirectory_R stops watching: the list is what it
-- was, and the watches that were added are given up, each once and in their order. The path has at
-- most 255 characters and no directory has a path of 255 or more, and the directories that were
-- watched before are not reached from the path and can still be watched.
pub del_watch_directory_r-add_watch_directory_r :
    (fs : FileSystem) (path : FilePath) (w : Watching)
    → IsShallow fs
    → length path ≤ 255
    → ((target : FilePath) → Reaches fs 0 path target → find_path target w.descs ≡ none)
    → All (IsWatchable fs) w.descs
    → Returns (add_watch_directory_r walk_fuel fs 0 path w) (λ x.
      Returns (del_watch_directory_r walk_fuel fs 0 path x.1) (λ y.
        (y.1.descs ≡ w.descs)
        × (added : List DirectoryPathDesc) × (x.1.descs ≡ w.descs ++ added)
        × (y.1.removed ≡ w.removed ++ map (λ d. d.wd) added)))
del_watch_directory_r-add_watch_directory_r fs path w shallow l fresh watchable =
    let vs = visits walk_fuel fs 0 path in
    rw
      (
        add_watch_directory_r-grow fs shallow walk_fuel 0 path w l (omega arith),
        ap (λ ds. w.descs ++ ds) (sym (append-nil vs)),
        del_watch_directory_r-Takes fs w.descs shallow watchable walk_fuel 0 path l (omega arith) []
            w.removed
            (λ t m.
              fresh t ((visits_iff-Reaches fs shallow walk_fuel 0 path t l (omega arith)).0 m))
            tt,
      )
      (append-nil w.descs, vs, ap (λ ds. w.descs ++ ds) (append-nil vs), refl)
