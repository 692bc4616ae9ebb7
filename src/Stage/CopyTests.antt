-- ===== src/Stage/CopyTests.antt =====
-- Runs of the copies, the trees and the checkpoint.
use memeloop_token_center_mi.Common.{
  ℕ, ◌≡◌, refl, any, ◌==◌, Bool, true, false, some, List, [], ◌∷◌, ◌++◌, Text, units, text_eq,
  if◌then◌else◌, ok, err, arith, FileStat, regular, directory, Result,
}
use mathlib.Core.List.{append_assoc}
use memeloop_token_center_mi.Acts.{pure}
use memeloop_token_center_mi.Stage.Options.{CopyRequest, failed}
use memeloop_token_center_mi.Stage.System.{
  Thrown, staged, system, System, private_regular, same_file, check_destination, check_directory,
  preserve_current_ownership, fchown_requested, chown_requested, stat_of, descriptor_stat,
  assert_parent, assert_destination, refuse_existing, private_directory, as_failure, is_system_code,
}
use memeloop_token_center_mi.Stage.Copy.{
  check_opened, open_source, write_all, copy_round, copy_bytes, fill_temporary, check_published,
  publish, clean_up, settle, copy_created, copy_opened, copy_protected_file,
}
use memeloop_token_center_mi.Stage.Copied.{IsChannel, IsCopied, too_large, copy_bytes_whole}
use memeloop_token_center_mi.Stage.Counted.{IsCounted}
use memeloop_token_center_mi.Stage.Closed.{copy_protected_file-Keeps}

copying : Unit {0}
unfolding private_regular same_file check_destination check_directory preserve_current_ownership
    fchown_requested chown_requested stat_of descriptor_stat assert_parent assert_destination
    refuse_existing private_directory as_failure is_system_code check_opened open_source write_all
    copy_round copy_bytes fill_temporary check_published publish clean_up settle copy_created
    copy_opened copy_protected_file
copying = tt

-- Which descriptors are open, what is still to be read, what was written, and whether the target is published.
record World : Type 0 where
  opened : List ℕ
  left : List ℕ
  content : List ℕ
  published : Bool

abbrev file : FileStat
file = record {
  kind = regular;
  dev = 1;
  ino = 2;
  size = 3;
  mtime_ns = 4;
  ctime_ns = 5;
  mode = 33_152;
  uid = 10_001;
  gid = 10_001;
  nlink = 1;
}

abbrev missing : Thrown
missing = system (some (units "ENOENT"))

-- what is at a path: directories end in "/d", and "/d/t" is the target
abbrev found : Text → Bool → Result Thrown FileStat
found path published =
    if text_eq path (units "/d")
    then ok (record file { kind = directory; mode = 16_832 })
    else if text_eq path (units "/d/t")
    then (if published then ok file else err missing)
    else ok file

-- a source that is read byte by byte
abbrev read_byte : World → Result Thrown (List ℕ) × World
read_byte w = elim w.left [ [] ↦ (ok [], w) | b ∷ rest ↦ (ok (b ∷ []), record w { left = rest }) ]

-- a file that is written byte by byte
abbrev write_byte : List ℕ → World → Result Thrown ℕ × World
write_byte [] w = (ok 0, w)
write_byte (b ∷ bytes) w = (ok 1, record w { content = w.content ++ b ∷ [] })

-- the open descriptors but one
abbrev without : ℕ → List ℕ → List ℕ
without fd [] = []
without fd (f ∷ fds) = let rest = without fd fds in if f == fd then fds else f ∷ rest

-- only a descriptor that is open can be closed
abbrev close_one : ℕ → World → Result Thrown (Unit {0}) × World
close_one fd w =
    if any (λ f. f == fd) w.opened
    then (ok tt, record w { opened = without fd w.opened })
    else (err (system (some (units "EBADF"))), w)

abbrev world : System World
world = record {
  dirname = λ path. units "/d";
  join = λ base name. base ++ b'/' ∷ name;
  extname = λ name. units ".json";
  lower = λ t. t;
  current_uid = some 0;
  current_gid = some 0;
  suffix = pure (ok (units "1-00"));
  lstat = λ path w. (found path w.published, w);
  fstat = λ fd. pure (ok file);
  open_read = λ path w. (ok 3, record w { opened = 3 ∷ w.opened });
  open_new = λ path w. (ok 4, record w { opened = 4 ∷ w.opened });
  close = close_one;
  read = λ fd n. read_byte;
  write = λ fd. write_byte;
  fsync = λ fd. pure (ok tt);
  fchmod = λ fd mode. pure (ok tt);
  fchown = λ fd uid gid. pure (ok tt);
  chmod = λ path mode. pure (ok tt);
  chown = λ path uid gid. pure (ok tt);
  link = λ from to w. (ok tt, record w { published = true });
  unlink = λ path. pure (ok tt);
  mkdir = λ path mode. pure (ok tt);
  readdir = λ path. pure (ok []);
}

abbrev at_start : World
at_start = record { opened = []; left = 7 ∷ 8 ∷ 9 ∷ []; content = []; published = false }

read_law :
    (n left c : List ℕ) (p : Bool)
    → let w : World = record { opened = n; left = left; content = c; published = p } in
      (bytes : List ℕ) × ((read_byte w).0 ≡ ok bytes)
      × (left ≡ bytes ++ (read_byte w).1.left)
      × (bytes ≡ [] → left ≡ [])
      × ((read_byte w).1.content ≡ c)
read_law n [] c p = ([], refl, refl, λ _. refl, refl)
read_law n (b ∷ rest) c p = (b ∷ [], refl, refl, λ h. cc, refl)

world-IsChannel : IsChannel world 3 4 (λ w. w.left) (λ w. w.content)
world-IsChannel = record {
  read = λ w. read_law w.opened w.left w.content w.published;
  write = λ b bytes w. (1, refl, omega arith, append_assoc w.content (b ∷ []) bytes, refl);
}

copy_bytes_whole_example :
    IsCopied world 3 4
      (λ w. w.left)
      (λ w. w.content)
      world-IsChannel
      4
      0
      at_start
      (copy_bytes world 6 3 4 4 0 at_start)
copy_bytes_whole_example =
    copy_bytes_whole world 3 4 (λ w. w.left) (λ w. w.content) world-IsChannel 4 at_start

copies :
    ((copy_bytes world 6 3 4 4 0 at_start).1.content ≡ 7 ∷ 8 ∷ 9 ∷ [])
    × ((copy_bytes world 4 3 4 2 0 at_start).0 ≡ err (too_large 2))
unfolding copying
copies = (refl, refl)

read_keeps :
    (n left c : List ℕ) (p : Bool)
    → (read_byte (record { opened = n; left = left; content = c; published = p })).1.opened ≡ n
read_keeps n [] c p = refl
read_keeps n (b ∷ rest) c p = refl

write_keeps : (bytes : List ℕ) (w : World) → (write_byte bytes w).1.opened ≡ w.opened
write_keeps [] w = refl
write_keeps (b ∷ bytes) w = refl

close_last :
    (fd : ℕ) (fds : List ℕ) (w : World)
    → w.opened ≡ fd ∷ fds
    → ((close_one fd w).0 ≡ ok tt) × ((close_one fd w).1.opened ≡ fds)
close_last fd fds w h = rw (h) (ground arith, ground arith)

world-IsCounted : IsCounted world (λ w. w.opened)
world-IsCounted = record {
  suffix = λ w. refl;
  makes_suffix = λ w. (units "1-00", refl);
  lstat = λ path w. refl;
  fstat = λ fd w. refl;
  open_read = λ path w. refl;
  open_new = λ path w. refl;
  close = close_last;
  read = λ fd n w. read_keeps w.opened w.left w.content w.published;
  write = λ fd bytes w. write_keeps bytes w;
  fsync = λ fd w. refl;
  fchmod = λ fd mode w. refl;
  fchown = λ fd uid gid w. refl;
  link = λ from to w. refl;
  unlink = λ path w. refl;
  removes = λ path w. tt;
}

abbrev request : CopyRequest
request = record { source = units "/d/s"; target = units "/d/t" }

copy_protected_file-Keeps_example :
    (copy_protected_file world request 10_001 10_001 4 at_start).1.opened ≡ []
copy_protected_file-Keeps_example =
    copy_protected_file-Keeps world (λ w. w.opened) world-IsCounted request 10_001 10_001 4 at_start

-- A descriptor that is not open cannot be closed.
not_open :
    (world.close 3 (record at_start { opened = 4 ∷ [] })).0 ≡ err (system (some (units "EBADF")))
not_open = refl

-- The copy returns, and the next one refuses to overwrite it.
returns :
    (copy_protected_file world request 10_001 10_001 4 at_start
      ≡ (ok tt, record { opened = []; left = []; content = 7 ∷ 8 ∷ 9 ∷ []; published = true }))
    × ((copy_protected_file world request 10_001 10_001 4 (record at_start { published = true })).0
        ≡ err (staged (failed (units "refusing to overwrite copy target: /d/t"))))
unfolding copying
returns = (refl, refl)
