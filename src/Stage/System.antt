-- ===== src/Stage/System.antt =====
-- What the staging of ops/ci/stage-protected-inputs.ts calls of `node:fs` and `node:path`, and its checks
-- of a file's stat.
use memeloop_token_center_mi.Common.{
  ℕ, ◌%◌, Bool, false, not, ◌&&◌, ◌||◌, Option, none, some, List, [], ◌∷◌, ◌++◌, Text, units,
  text_eq, all, length, leb, ◌==◌, if◌then◌else◌, Result, ok, err, throw_if, String, FileStat,
  is_file, is_directory, is_symbolic_link, permissions,
}
use memeloop_token_center_mi.Acts.{Acting, pure, ◌>>=◌, ◌>>◌, catch}
use memeloop_token_center_mi.Json.Number.{is_digit}
use memeloop_token_center_mi.Stage.Options.{StageFailure, failed}

-- A `StageError`, or the error of a system call, with its code where that is a text.
pub data Thrown : Type 0 where
  staged : (failure : StageFailure) → Thrown
  system : (code : Option Text) → Thrown

abbrev pub Act : Type 0 → Type 0 → Type 0
Act S A = Acting Thrown S A

-- Descriptors are numbers. `read` is of so many bytes wanted, `write` returns how many were written,
-- `suffix` is `process.pid` and the random part of a temporary name.
pub record System (S : Type 0) : Type 0 where
  pub dirname : Text → Text
  pub join : Text → Text → Text
  pub extname : Text → Text
  pub lower : Text → Text
  pub current_uid : Option ℕ
  pub current_gid : Option ℕ
  pub suffix : Act S Text
  pub lstat : Text → Act S FileStat
  pub fstat : ℕ → Act S FileStat
  pub open_read : Text → Act S ℕ
  pub open_new : Text → Act S ℕ
  pub close : ℕ → Act S (Unit {0})
  pub read : ℕ → ℕ → Act S (List ℕ)
  pub write : ℕ → List ℕ → Act S ℕ
  pub fsync : ℕ → Act S (Unit {0})
  pub fchmod : ℕ → ℕ → Act S (Unit {0})
  pub fchown : ℕ → ℕ → ℕ → Act S (Unit {0})
  pub chmod : Text → ℕ → Act S (Unit {0})
  pub chown : Text → ℕ → ℕ → Act S (Unit {0})
  pub link : Text → Text → Act S (Unit {0})
  pub unlink : Text → Act S (Unit {0})
  pub mkdir : Text → ℕ → Act S (Unit {0})
  pub readdir : Text → Act S (List Text)

abbrev pub failing : Text → String → Thrown
failing label message = staged (failed (label ++ units message))

abbrev pub throw : {S A : Type 0} → Thrown → Act S A
throw e s = (err e, s)

-- `error instanceof Error && "code" in error && error.code === "ENOENT"`
abbrev pub is_missing : Thrown → Bool
is_missing (staged _) = false
is_missing (system none) = false
is_missing (system (some code)) = text_eq code (units "ENOENT")

abbrev pub ignore_missing : {S : Type 0} → Thrown → Act S (Unit {0})
ignore_missing e = if is_missing e then pure (ok tt) else throw e

abbrev is_upper : ℕ → Bool
is_upper c = leb b'A' c && leb c b'Z'

-- /^[A-Z][A-Z0-9_]{0,31}$/
unfoldable pub is_system_code : Text → Bool
is_system_code [] = false
is_system_code (c ∷ s) =
    is_upper c && all (λ d. is_upper d || is_digit d || d == b'_') s && leb (length s) 31

abbrev pub system_failure : Option Text → Thrown
system_failure none = staged (failed (units "protected input staging failed"))
system_failure (some code) =
    if is_system_code code
    then staged (failed (units "protected input staging failed (" ++ code ++ units ")"))
    else staged (failed (units "protected input staging failed"))

-- `if (error instanceof StageError) throw error; failSystemStage(error);`
unfoldable pub as_failure : Thrown → Thrown
as_failure (staged failure) = staged failure
as_failure (system code) = system_failure code

-- `(stat.mode & SOURCE_MODE_MASK) !== 0n` is `mode % 64` here.
unfoldable pub private_regular : FileStat → Text → Result Thrown (Unit {0})
private_regular stat label =
    if not (is_file stat) || is_symbolic_link stat
    then err (failing label " must be a regular non-symlink file")
    else if not (stat.nlink == 1)
    then err (failing label " must have exactly one hard link")
    else throw_if (not (stat.mode % 64 == 0)) (failing label " must not be group/other accessible")

unfoldable pub same_file : FileStat → FileStat → Bool
same_file left right =
    left.dev == right.dev
    && left.ino == right.ino
    && left.size == right.size
    && left.mtime_ns == right.mtime_ns
    && left.ctime_ns == right.ctime_ns
    && left.mode == right.mode
    && left.uid == right.uid
    && left.gid == right.gid
    && left.nlink == right.nlink

-- a regular file of mode 0600 with one link
abbrev pub is_fenced : FileStat → Bool
is_fenced s = is_file s && s.nlink == 1 && permissions s == 384

abbrev pub is_owned : ℕ → ℕ → FileStat → Bool
is_owned uid gid s = s.uid == uid && s.gid == gid

unfoldable pub check_destination : ℕ → ℕ → Text → FileStat → Result Thrown (Unit {0})
check_destination uid gid label stat =
    if not (is_file stat) || is_symbolic_link stat
    then err (failing label " must be a regular non-symlink file")
    else if not (stat.nlink == 1)
    then err (failing label " must have exactly one hard link")
    else if not (permissions stat == 384)
    then err (failing label " must have mode 0600")
    else throw_if (not (is_owned uid gid stat)) (failing label " has an unexpected owner")

unfoldable pub check_directory : Text → FileStat → Result Thrown (Unit {0})
check_directory label stat =
    if not (is_directory stat) || is_symbolic_link stat
    then err (failing label " must be a regular non-symlink directory")
    else throw_if (not (permissions stat == 448)) (failing label " must have mode 0700")

abbrev is_number : Option ℕ → ℕ → Bool
is_number none n = false
is_number (some m) n = m == n

module _ {S : Type 0} (sys : System S) where
  unfoldable pub preserve_current_ownership : ℕ → ℕ → Bool
  preserve_current_ownership uid gid =
      is_number sys.current_uid uid && is_number sys.current_gid gid

  unfoldable pub fchown_requested : ℕ → ℕ → ℕ → Act S (Unit {0})
  fchown_requested fd uid gid =
      if preserve_current_ownership uid gid then pure (ok tt) else sys.fchown fd uid gid

  unfoldable pub chown_requested : Text → ℕ → ℕ → Act S (Unit {0})
  chown_requested path uid gid =
      if preserve_current_ownership uid gid then pure (ok tt) else sys.chown path uid gid

  -- `asBigFileStat`
  unfoldable pub stat_of : Text → Text → Act S FileStat
  stat_of path label = catch (sys.lstat path) (λ _. throw (failing label " is unavailable"))

  unfoldable pub descriptor_stat : ℕ → Text → Act S FileStat
  descriptor_stat fd label =
      catch (sys.fstat fd) (λ _. throw (failing label " could not be inspected"))

  unfoldable pub assert_parent : Text → Text → Act S (Unit {0})
  assert_parent path label = stat_of (sys.dirname path) (label ++ units " parent") >>= λ stat.
      pure (
        throw_if (not (is_directory stat) || is_symbolic_link stat)
          (failing label " parent must be a regular directory"))

  unfoldable pub assert_destination : Text → ℕ → ℕ → Text → Act S FileStat
  assert_destination path uid gid label =
      stat_of path label >>= λ stat. pure (check_destination uid gid label stat) >> pure (ok stat)

  -- `lstatSync` of a path that must not be there
  unfoldable pub refuse_existing : Text → Text → Act S (Unit {0})
  refuse_existing path message =
      catch (sys.lstat path >>= λ _. throw (staged (failed message))) ignore_missing

  unfoldable pub private_directory : Text → Text → Act S FileStat
  private_directory path label =
      stat_of path label >>= λ stat. pure (check_directory label stat) >> pure (ok stat)
