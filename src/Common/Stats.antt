-- ===== src/Common/Stats.antt =====
-- What the file system says of a file: the fields of `BigIntStats` that the tools read.
use Prim.Native.Nat.{ℕ, ◌/◌, ◌%◌}
use mathlib.Core.Bool.{Bool, true, false, ◌&&◌}
use memeloop_token_center_mi.Common.Tests.{◌==◌}

pub data Kind : Type 0 where
  regular directory link other : Kind

pub record FileStat : Type 0 where
  pub kind : Kind
  pub dev : ℕ
  pub ino : ℕ
  pub size : ℕ
  pub mtime_ns : ℕ
  pub ctime_ns : ℕ
  pub mode : ℕ
  pub uid : ℕ
  pub gid : ℕ
  pub nlink : ℕ

abbrev pub is_file : FileStat → Bool
is_file s = elim s.kind [ regular ↦ true | _ ↦ false ]

abbrev pub is_directory : FileStat → Bool
is_directory s = elim s.kind [ directory ↦ true | _ ↦ false ]

abbrev pub is_symbolic_link : FileStat → Bool
is_symbolic_link s = elim s.kind [ link ↦ true | _ ↦ false ]

-- `mode & 0o777`
abbrev pub permissions : FileStat → ℕ
permissions s = s.mode % 512

-- `mode & 0o222`, which is zero or not
abbrev pub is_read_only : FileStat → Bool
is_read_only s = s.mode / 2 % 2 == 0 && s.mode / 16 % 2 == 0 && s.mode / 128 % 2 == 0
