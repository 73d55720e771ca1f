-- ===== src/Logging/Directory.antt =====
-- The directory of a log, its files by name.
use pastebin.Base.{ℕ, Option, none, some, List, [], ◌∷◌, Bytes, bytes_eq, if◌then◌else◌}

pub record File : Type 0 where
  pub name : Bytes
  pub text : Bytes
  pub mod_time : ℕ

abbrev pub Directory : Type 0
Directory = List File

unfoldable pub find : Bytes → Directory → Option File
unfolding bytes_eq
find n [] = none
find n (f ∷ fs) = if bytes_eq f.name n then some f else find n fs

unfoldable pub remove : Bytes → Directory → Directory
unfolding bytes_eq
remove n [] = []
remove n (f ∷ fs) = let rest = remove n fs in if bytes_eq f.name n then rest else f ∷ rest

-- A file takes the place of the one that had its name.
unfoldable pub put : File → Directory → Directory
put f fs = f ∷ remove f.name fs
