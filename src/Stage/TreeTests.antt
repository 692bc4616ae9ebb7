-- ===== src/Stage/TreeTests.antt =====
-- A run of the whole tool: a file, a tree with an excluded directory, and a checkpoint.
use memeloop_token_center_mi.Common.{
  ◌≡◌, refl, Bool, true, false, some, List, [], ◌∷◌, ◌++◌, Text, units, text_eq, if◌then◌else◌, ok,
  err, FileStat, regular, directory, Result,
}
use memeloop_token_center_mi.Acts.{pure}
use memeloop_token_center_mi.Json.Parser.{behind}
use memeloop_token_center_mi.Json.Number.{decimal}
use memeloop_token_center_mi.Json.Print.{print, digits_of, body_text}
use memeloop_token_center_mi.Routes.Strings.{starts_with, split, distinct_from}
use memeloop_token_center_mi.Stage.Options.{
  unsigned, path_value, next_value, cut, is_segment, relative_directory, inline_form, exact_form,
  form_of,
}
use memeloop_token_center_mi.Stage.Args.{
  parse_pair, inline_halves, inline_pair, take_form, parse_loop, check_targets, check_arguments,
  parse_arguments,
}
use memeloop_token_center_mi.Stage.System.{
  Thrown, system, System, private_regular, same_file, check_destination, check_directory,
  preserve_current_ownership, fchown_requested, chown_requested, stat_of, descriptor_stat,
  assert_parent, assert_destination, refuse_existing, private_directory, as_failure, is_system_code,
}
use memeloop_token_center_mi.Stage.Copy.{
  check_opened, open_source, write_all, copy_round, copy_bytes, fill_temporary, check_published,
  publish, clean_up, settle, copy_created, copy_opened, copy_protected_file,
}
use memeloop_token_center_mi.Stage.Tree.{
  create_private_directory, fence_private_directory, copy_entry, exclude_entry, stage_entry,
  stage_entries, stage_directory, copy_auth_tree,
}
use memeloop_token_center_mi.Stage.Main.{
  summary_text, lacks_root, checkpoint_stat, check_checkpoint, check_fenced, inspect_fenced,
  fence_checkpoint, copy_all, copy_trees, stage_checkpoint, check_root, stage_inputs, main, exit,
  exit_of,
}

staging : Unit {0}
unfolding behind decimal print digits_of body_text starts_with split distinct_from unsigned
    path_value next_value cut is_segment relative_directory inline_form exact_form form_of
    parse_pair inline_halves inline_pair take_form parse_loop check_targets check_arguments
    parse_arguments private_regular same_file check_destination check_directory
    preserve_current_ownership fchown_requested chown_requested stat_of descriptor_stat
    assert_parent assert_destination refuse_existing private_directory as_failure is_system_code
    check_opened open_source write_all copy_round copy_bytes fill_temporary check_published publish
    clean_up settle copy_created copy_opened copy_protected_file create_private_directory
    fence_private_directory copy_entry exclude_entry stage_entry stage_entries stage_directory
    copy_auth_tree summary_text lacks_root checkpoint_stat check_checkpoint check_fenced
    inspect_fenced fence_checkpoint copy_all copy_trees stage_checkpoint check_root stage_inputs
    main exit_of
staging = tt

abbrev file : FileStat
file = record {
  kind = regular;
  dev = 1;
  ino = 2;
  size = 0;
  mtime_ns = 4;
  ctime_ns = 5;
  mode = 33_152;
  uid = 10_001;
  gid = 10_001;
  nlink = 1;
}

abbrev folder : FileStat
folder = record file { kind = directory; mode = 16_832 }

-- what there is, by its path: the state is the list of the paths that were made
abbrev is_in : Text → List Text → Bool
is_in path [] = false
is_in path (p ∷ ps) = if text_eq p path then true else is_in path ps

abbrev folders : List Text
folders = units "/" ∷ units "/a" ∷ units "/a/old" ∷ units "/o" ∷ []

abbrev sources : List Text
sources = units "/a" ∷ units "/a/x.json" ∷ units "/a/old" ∷ units "/s" ∷ units "/" ∷ units "/c" ∷ []

abbrev found : Text → List Text → Result Thrown FileStat
found path made =
    if is_in path (made ++ sources)
    then ok (if is_in path folders then folder else file)
    else err (system (some (units "ENOENT")))

abbrev parent_of : Text → Text
parent_of path = if starts_with (units "/o/") path then units "/o" else units "/"

-- The files are empty.
abbrev world : System (List Text)
world = record {
  dirname = parent_of;
  join = λ base name. base ++ b'/' ∷ name;
  extname = λ name. units ".JSON";
  lower = λ t. units ".json";
  current_uid = some 0;
  current_gid = some 0;
  suffix = pure (ok (units "1-00"));
  lstat = λ path made. (found path made, made);
  fstat = λ fd. pure (ok file);
  open_read = λ path. pure (ok 3);
  open_new = λ path. pure (ok 4);
  close = λ fd. pure (ok tt);
  read = λ fd n. pure (ok []);
  write = λ fd bytes. pure (ok 1);
  fsync = λ fd. pure (ok tt);
  fchmod = λ fd mode. pure (ok tt);
  fchown = λ fd uid gid. pure (ok tt);
  chmod = λ path mode. pure (ok tt);
  chown = λ path uid gid. pure (ok tt);
  link = λ from to made. (ok tt, to ∷ made);
  unlink = λ path. pure (ok tt);
  mkdir = λ path mode made. (ok tt, path ∷ made);
  readdir = λ path. pure (ok (units "x.json" ∷ units "old" ∷ []));
}

abbrev line : List Text
line =
    units "--copy=/s=/t"
    ∷ units "--auth-dir=/a=/o"
    ∷ units "--exclude-auth-subdir=old"
    ∷ units "--checkpoint=/c"
    ∷ units "--max-bytes=5"
    ∷ []

runs :
    (exit_of (main world 3 line []).0
      ≡ exit
          (units
            "{\"auth_file_count\":1,\"checkpoint_present\":true,\"copied_count\":1,\"excluded_directory_count\":1,\"target_gid\":10001,\"target_uid\":10001}\n")
          []
          0)
    × ((main world 3 line []).1 ≡ units "/o/x.json" ∷ units "/o" ∷ units "/t" ∷ [])
    × (exit_of (main world 3 line (units "/t" ∷ [])).0
        ≡ exit [] (units "refusing to overwrite copy target: /t\n") 2)
    × (exit_of (main world 3 (units "--auth-dir=/a=/o" ∷ []) []).0
        ≡ exit [] (units "auth directory/old must be a regular non-symlink directory\n") 2)
unfolding staging
runs = (refl, refl, refl, refl)
