-- ===== src/Platform/Storage.antt =====
-- The files and directories that the terrain service uses, with `QFileInfo`, `QFile`, `QSaveFile`,
-- `QLockFile` and `QDir`, and the numbers in their names.
use aowis_server_map.Prelude.{ℕ, ◌≡◌, ◌++◌, codes, Bool, true, Bytes, Text}

-- What is found under a path. A file that is not regular, or cannot be opened, is not readable.
pub data Found : Type 0 where
  missing unreadable : Found
  readable : Bytes → Found

-- `make_directory` is `mkpath`. `save` opens a `QSaveFile`, writes the data and commits, and fails as a
-- whole. `unlock` is the end of a `QLockFile`; it leaves other files alone.
pub record Storage : Type 1 where
  pub World : Type 0
  pub look : World → Text → Found
  pub is_directory : World → Text → Bool
  pub make_directory : World → Text → World × Bool
  pub save : World → Text → Bytes → World × Bool
  pub try_lock : World → Text → World × Bool
  pub unlock : World → Text → World
  pub directory_of : Text → Text
  pub file_path : Text → Text → Text
  pub clean_path : Text → Text
  pub number : ℕ → Text
  pub look_saved :
      (w : World) (path : Text) (bytes : Bytes)
      → (save w path bytes).1 ≡ true
      → look (save w path bytes).0 path ≡ readable bytes
  pub look_unlocked :
      (w : World) (path : Text) → look (unlock w (path ++ codes ".lock")) path ≡ look w path
