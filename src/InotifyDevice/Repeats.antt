-- ===== src/InotifyDevice/Repeats.antt =====
-- addWatchDirectory_R of frameworks/inputmanager/InotifyDevice.cpp on a directory whose path fills
-- `strTmp`, and which is its own entry.
use zeus_os.Base.{
  ℕ, zero, suc, ◌+◌, ◌<◌, ◌≡◌, refl, sym, ap, ◌∙◌, true, false, none, some, List, [], ◌∷◌, ◌++◌,
  arith, length, All,
}
use mathlib.Core.List.{append-nil}
use zeus_os.Binder.{Outcome, done, Returns}
use zeus_os.FileSystem.{FilePath, FileSystem, is_dir, entry_path, is_hidden}
use zeus_os.InotifyDevice.{
  DirectoryPathDesc, Watching, minus_one, each_directory, add_watch_directory_r, watch,
}
use zeus_os.InotifyDevice.Walks.{take-length, grow, grow_twice, walk_closed, walk_opened}

abbrev pub copies : ℕ → DirectoryPathDesc → List DirectoryPathDesc
copies zero d = []
copies (suc n) d = d ∷ copies n d

-- What the walk returns with `n` directories left to open.
abbrev left_ret : ℕ → ℕ
left_ret zero = minus_one
left_ret (suc n) = 0

abbrev pub AreHidden : List FilePath → Type 0
AreHidden = All (λ n. is_hidden n ≡ true)

each_directory-AreHidden :
    (recur : FilePath → Watching → Outcome (ℕ × Watching)) (fs : FileSystem) (path : FilePath)
    (hidden names : List FilePath) (w : Watching)
    → AreHidden hidden
    → each_directory recur fs path (hidden ++ names) w ≡ each_directory recur fs path names w
unfolding each_directory
each_directory-AreHidden recur fs path [] names w h = refl
each_directory-AreHidden recur fs path (x ∷ hidden) names w h =
    rw (h.0) (each_directory-AreHidden recur fs path hidden names w h.1)

each_directory-all_hidden :
    (recur : FilePath → Watching → Outcome (ℕ × Watching)) (fs : FileSystem) (path : FilePath)
    (hidden : List FilePath) (w : Watching)
    → AreHidden hidden
    → each_directory recur fs path hidden w ≡ done w
unfolding each_directory
each_directory-all_hidden recur fs path hidden w h =
    ap (λ names. each_directory recur fs path names w) (sym (append-nil hidden))
    ∙ each_directory-AreHidden recur fs path hidden [] w h

module _ (fs : FileSystem) (path name : FilePath) (before after : List FilePath) (wd limit : ℕ)
    (full : length path ≡ 255) (dir : is_dir fs path ≡ true) (shown : is_hidden name ≡ false)
    (front : AreHidden before) (back : AreHidden after) (watched : fs.add_watch path ≡ some wd)
    (opened : (held : ℕ) → held < limit → fs.opendir held path ≡ some (before ++ name ∷ after))
    (no_more : fs.opendir limit path ≡ none) where
  abbrev own : DirectoryPathDesc
  own = record { wd = wd; path = path }

  own_entry : entry_path path name ≡ path
  unfolding entry_path
  own_entry = take-length path 255 full (47 ∷ name)

  each_directory-own :
      (recur : FilePath → Watching → Outcome (ℕ × Watching)) (w v : Watching) (ret : ℕ)
      → recur path w ≡ done (ret, v)
      → each_directory recur fs path (before ++ name ∷ after) w ≡ done v
  unfolding each_directory
  each_directory-own recur w v ret e =
      each_directory-AreHidden recur fs path before (name ∷ after) w front
      ∙ rw (shown, own_entry, dir, e) (each_directory-all_hidden recur fs path after v back)

  add_watch_directory_r-copies :
      (n held f : ℕ) (w : Watching)
      → held + n ≡ limit
      → n < f
      → add_watch_directory_r f fs held path w ≡ done (left_ret n, grow (copies (suc n) own) w)
  unfolding add_watch_directory_r
  add_watch_directory_r-copies n held zero w e l = absurd (omega arith)
  add_watch_directory_r-copies zero held (suc f) w e l =
      let last : held ≡ limit = omega arith in
      rw (watched, add_watch_directory_r)
        (walk_closed (add_watch_directory_r f fs (suc held)) fs held path (watch wd path w)
          (ap (λ k. fs.opendir k path) last ∙ no_more))
  add_watch_directory_r-copies (suc n) held (suc f) w e l =
      rw (watched, add_watch_directory_r)
        (walk_opened (add_watch_directory_r f fs (suc held)) fs held path (watch wd path w) _
            (before ++ name ∷ after) (opened held (omega arith))
            (each_directory-own (add_watch_directory_r f fs (suc held)) (watch wd path w) _ _ (
              add_watch_directory_r-copies n (suc held) f (watch wd path w) (omega arith)
                (omega arith)))
          ∙ ap (λ v. done (0, v)) (grow_twice (own ∷ []) (copies (suc n) own) w))

  -- A directory with a path of 255 characters is watched again and again. The path of its entry is
  -- cut off to its own, so that the walk goes on into the same directory until opendir fails, when
  -- `limit` of its streams are open and the process has no descriptor left: `limit` + 1 descriptions
  -- of the same directory join the list. The directory has one visible entry among hidden ones and can
  -- be watched, and the fuel is more than `limit`.
  pub add_watch_directory_r_repeats :
      (f : ℕ) (w : Watching)
      → limit < f
      → Returns
          (add_watch_directory_r f fs 0 path w)
          (λ x. x.1.descs ≡ w.descs ++ copies (suc limit) (record { wd = wd; path = path }))
  add_watch_directory_r_repeats f w l =
      rw (add_watch_directory_r-copies limit 0 f w (omega arith) l) refl
