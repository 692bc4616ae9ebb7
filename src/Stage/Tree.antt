-- ===== src/Stage/Tree.antt =====
-- `createPrivateDirectory`, `fencePrivateDirectory` and `copyAuthTree` of
-- ops/ci/stage-protected-inputs.ts.
use memeloop_token_center_mi.Common.{
  ℕ, zero, suc, ◌+◌, Bool, not, ◌&&◌, ◌||◌, List, [], ◌∷◌, ◌++◌, Text, units, text_eq, contains,
  length, ◌==◌, if◌then◌else◌, ok, throw_if, FileStat, is_file, is_directory, is_symbolic_link,
  permissions,
}
use memeloop_token_center_mi.Acts.{pure, ◌>>=◌, ◌>>◌, catch}
use memeloop_token_center_mi.Stage.Options.{out_of_fuel}
use memeloop_token_center_mi.Stage.System.{
  staged, Act, System, failing, throw, as_failure, is_owned, chown_requested, stat_of,
  assert_parent, refuse_existing, private_directory,
}
use memeloop_token_center_mi.Stage.Copy.{copy_protected_file}

-- `AuthTreeResult`; the set of the exclusions that matched is a list
pub record AuthTreeResult : Type 0 where
  pub copied_files : ℕ
  pub excluded_directories : ℕ
  pub matched : List Text

abbrev pub empty_result : AuthTreeResult
empty_result = record { copied_files = 0; excluded_directories = 0; matched = [] }

-- the results of one part of a tree and of what follows it
abbrev pub add_result : AuthTreeResult → AuthTreeResult → AuthTreeResult
add_result r rest = record {
  copied_files = r.copied_files + rest.copied_files;
  excluded_directories = r.excluded_directories + rest.excluded_directories;
  matched = r.matched ++ rest.matched;
}

abbrev pub one_file : AuthTreeResult
one_file = record { copied_files = 1; excluded_directories = 0; matched = [] }

abbrev pub one_exclusion : Text → AuthTreeResult
one_exclusion path = record { copied_files = 0; excluded_directories = 1; matched = path ∷ [] }

abbrev pub child_path : Text → Text → Text
child_path relative name = if length relative == 0 then name else relative ++ b'/' ∷ name

-- The source and the target of a directory, its label, and its path below the root.
pub record Directory : Type 0 where
  pub source : Text
  pub target : Text
  pub label : Text
  pub relative : Text

module _ {S : Type 0} (sys : System S) (uid gid max_bytes : ℕ) (exclusions : List Text) where
  unfoldable pub create_private_directory : Text → Text → Act S (Unit {0})
  create_private_directory path label =
      assert_parent sys path label
      >> (refuse_existing sys path (units "refusing to overwrite " ++ label ++ units ": " ++ path)
          >> (sys.mkdir path 448 >> (private_directory sys path label >>= λ _. pure (ok tt))))

  unfoldable pub fence_private_directory : Text → Text → Act S (Unit {0})
  fence_private_directory path label =
      catch
        (chown_requested sys path uid gid
          >> (private_directory sys path label >>= λ stat.
              pure (
                throw_if (not (is_owned uid gid stat)) (failing label " has an unexpected owner"))))
        (λ e. throw (as_failure e))

  abbrev pub entry_of : Directory → Text → Directory
  entry_of d name = record {
    source = sys.join d.source name;
    target = sys.join d.target name;
    label = d.label ++ b'/' ∷ name;
    relative = child_path d.relative name;
  }

  abbrev pub is_json : Text → FileStat → Bool
  is_json name stat = is_file stat && text_eq (sys.lower (sys.extname name)) (units ".json")

  -- an entry that is no directory
  unfoldable pub copy_entry : Text → Directory → Text → FileStat → Act S AuthTreeResult
  copy_entry label entry name stat =
      pure (throw_if (not (is_json name stat)) (failing label " contains a non-JSON entry"))
      >> (pure (
            throw_if (not (permissions stat == 384) || not (stat.nlink == 1))
              (failing label " JSON entries must be mode 0600 regular files with one link"))
          >> (copy_protected_file sys (record { source = entry.source; target = entry.target }) uid
                gid max_bytes
              >> pure (ok one_file)))

  unfoldable pub exclude_entry : Directory → Act S AuthTreeResult
  exclude_entry entry =
      private_directory sys entry.source (entry.label ++ units " excluded source") >>= λ _.
      pure (ok (one_exclusion entry.relative))

  -- a round of the loop, with what is done for a directory
  unfoldable pub stage_entry :
      (Directory → Act S AuthTreeResult) → Directory → Text → Act S AuthTreeResult
  stage_entry below d name =
      let entry : Directory = entry_of d name in
      stat_of sys entry.source (d.label ++ units " entry") >>= λ stat.
      pure (throw_if (is_symbolic_link stat) (failing d.label " contains a symbolic link"))
      >> (if is_directory stat
          then (if contains entry.relative exclusions then exclude_entry entry else below entry)
          else copy_entry d.label entry name stat)

  unfoldable pub stage_entries :
      (Directory → Act S AuthTreeResult) → Directory → List Text → Act S AuthTreeResult
  stage_entries below d [] = pure (ok empty_result)
  stage_entries below d (name ∷ names) = stage_entry below d name >>= λ r.
      stage_entries below d names >>= λ rest. pure (ok (add_result r rest))

  unfoldable pub stage_directory :
      (Directory → Act S AuthTreeResult) → Directory → Act S AuthTreeResult
  stage_directory below d = private_directory sys d.source (d.label ++ units " source") >>= λ _.
      create_private_directory d.target d.label
      >> (sys.readdir d.source >>= λ names. stage_entries below d names >>= λ r.
          fence_private_directory d.target d.label >> pure (ok r))

  -- The fuel is above the depth of the tree.
  unfoldable pub copy_auth_tree : ℕ → Directory → Act S AuthTreeResult
  copy_auth_tree zero d = throw (staged out_of_fuel)
  copy_auth_tree (suc fuel) d = stage_directory (copy_auth_tree fuel) d
