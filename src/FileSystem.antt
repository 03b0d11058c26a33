-- ===== src/FileSystem.antt =====
-- What stat, opendir, open and inotify_add_watch say of a path, with the tests of
-- frameworks/inputmanager/Device.cpp on it and the path of an entry that EventDevice.cpp and
-- InotifyDevice.cpp of the same directory build.
use zeus_os.Base.{ℕ, Bool, true, false, ◌&&◌, Option, some, List, [], ◌∷◌, ◌++◌, ◌==◌, take}

-- The texts of paths and names, without their terminator.
abbrev pub FilePath : Type 0
FilePath = List ℕ

-- S_ISREG, S_ISDIR, S_ISCHR and S_ISBLK of the mode, and none of them.
pub data FileKind : Type 0 where
  regular directory char_device blk_device other : FileKind

-- The results of the system calls while an operation runs; `none` is a failure. The names are
-- those that readdir gives after opendir, in its order. The number is that of the directories that
-- the operation holds open at the time, since each takes a descriptor of the process.
pub record FileSystem : Type 0 where
  pub stat : FilePath → Option FileKind
  pub opendir : ℕ → FilePath → Option (List FilePath)
  pub open_rdwr : FilePath → Option ℕ
  pub add_watch : FilePath → Option ℕ

unfoldable pub is_reg_file : FileSystem → FilePath → Bool
is_reg_file fs path = elim (fs.stat path) [ some regular ↦ true | _ ↦ false ]

unfoldable pub is_dir : FileSystem → FilePath → Bool
is_dir fs path = elim (fs.stat path) [ some directory ↦ true | _ ↦ false ]

unfoldable pub is_char_device : FileSystem → FilePath → Bool
is_char_device fs path = elim (fs.stat path) [ some char_device ↦ true | _ ↦ false ]

unfoldable pub is_blk_device : FileSystem → FilePath → Bool
is_blk_device fs path = elim (fs.stat path) [ some blk_device ↦ true | _ ↦ false ]

-- The room of `strTmp[256]` without its terminator.
abbrev pub name_max : ℕ
name_max = 255

-- snprintf(strTmp, 256, "%s/%s", ...)
unfoldable pub entry_path : FilePath → FilePath → FilePath
entry_path dir name = take name_max (dir ++ 47 ∷ name)

-- !strncmp(text, prefix, strlen(prefix))
unfoldable pub starts_with : List ℕ → List ℕ → Bool
starts_with [] text = true
starts_with (c ∷ cs) [] = false
starts_with (c ∷ cs) (x ∷ xs) = x == c && starts_with cs xs

-- strncmp(file->d_name, ".", 1) == 0
abbrev pub is_hidden : FilePath → Bool
is_hidden name = starts_with (46 ∷ []) name

-- "event"
abbrev pub event_prefix : List ℕ
event_prefix = 101 ∷ 118 ∷ 101 ∷ 110 ∷ 116 ∷ []
