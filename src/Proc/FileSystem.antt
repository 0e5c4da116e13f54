-- ===== src/Proc/FileSystem.antt =====
-- What the calls of the standard library and of POSIX find under /proc while one operation runs.
-- The answers to different calls need not agree: processes come and go in between.
use ntmd.Base.{Bool, Option, List, Text}

pub data FileType : Type 0 where
  dt_dir dt_lnk dt_other : FileType

pub record DirEntry : Type 0 where
  pub d_type : FileType
  pub d_name : Text

pub record FileSystem : Type 0 where
  -- the lines that `std::getline` reads, if the file can be opened
  pub lines : Text → Option (List Text)
  -- the entries that `readdir` returns, if `opendir` succeeds
  pub entries : Text → Option (List DirEntry)
  -- `std::filesystem::exists`
  pub exists : Text → Bool
  -- the target of a symbolic link, if `readlink` succeeds
  pub link : Text → Option Text
  -- what the local buffer `linkRaw` holds behind the bytes that `readlink` writes
  pub stale : Text → Text
