-- ===== src/Stage/Main.antt =====
-- `fenceCheckpoint`, `main` and the entry point of ops/ci/stage-protected-inputs.ts.
use memeloop_token_center_mi.Common.{
  ℕ, Bool, true, false, not, ◌&&◌, ◌||◌, Option, none, some, List, [], ◌∷◌, ◌++◌, Text, units,
  contains, all, length, ◌==◌, if◌then◌else◌, Result, ok, err, throw_if, FileStat, is_file,
  is_symbolic_link, permissions,
}
use memeloop_token_center_mi.Acts.{pure, ◌>>=◌, ◌>>◌, catch, replace}
use memeloop_token_center_mi.Json.Parser.{bool, int, obj, end, field}
use memeloop_token_center_mi.Json.Print.{print}
use memeloop_token_center_mi.Stage.Options.{
  help, failed, out_of_fuel, CopyRequest, Arguments, Staged,
}
use memeloop_token_center_mi.Stage.Args.{parse_arguments}
use memeloop_token_center_mi.Stage.System.{
  Thrown, staged, system, Act, System, throw, is_missing, is_owned, chown_requested,
  descriptor_stat,
}
use memeloop_token_center_mi.Stage.Copy.{copy_protected_file}
use memeloop_token_center_mi.Stage.Tree.{
  AuthTreeResult, empty_result, add_result, Directory, copy_auth_tree,
}

abbrev pub lines : List Text → Text
lines [] = []
lines (line ∷ []) = line
lines (line ∷ rest) = line ++ 0x0a ∷ lines rest

abbrev pub usage : Text
usage = lines (
    units "usage: stage-protected-inputs [options]"
    ∷ []
    ∷ units "  --copy SOURCE TARGET       copy one owner-only input (repeatable)"
    ∷ units "  --copy-auth-dir SOURCE TARGET"
    ∷ units "                             recursively copy only 0600 JSON auth files"
    ∷ units "  --exclude-auth-subdir PATH  skip one exact reviewed auth subdirectory (repeatable)"
    ∷ units "  --checkpoint PATH          fence an existing checkpoint, if present"
    ∷ units "  --checkpoint-required      fail when PATH does not exist"
    ∷ units "  --target-uid UID           destination owner (default: 10001)"
    ∷ units "  --target-gid GID           destination group (default: 10001)"
    ∷ units "  --max-bytes BYTES          per-input copy limit (default: 67108864)"
    ∷ units "  --help                     print this message"
    ∷ [])

-- what `main` writes to the standard output
pub record Summary : Type 0 where
  pub tree : AuthTreeResult
  pub checkpoint_present : Bool
  pub copied_count : ℕ
  pub gid : ℕ
  pub uid : ℕ

unfoldable pub summary_text : Summary → Text
summary_text s =
    print
      (obj (
        field (units "auth_file_count") (int false s.tree.copied_files) (
          field (units "checkpoint_present") (bool s.checkpoint_present) (
            field (units "copied_count") (int false s.copied_count) (
              field (units "excluded_directory_count") (int false s.tree.excluded_directories) (
                field (units "target_gid") (int false s.gid)
                  (field (units "target_uid") (int false s.uid) end)))))))
      (0x0a ∷ [])

abbrev is_other : Option ℕ → ℕ → Bool
is_other none n = false
is_other (some m) n = not (n == m)

-- whether a process of such an identity would have to change the ownership
unfoldable pub lacks_root : Option ℕ → Option ℕ → Arguments → Bool
lacks_root none gid args = false
lacks_root (some uid) gid args = not (uid == 0) && (not (args.uid == uid) || is_other gid args.gid)

module _ {S : Type 0} (sys : System S) where
  -- the stat of a checkpoint, none where there is none
  unfoldable pub checkpoint_stat : Text → Bool → Act S (Option FileStat)
  checkpoint_stat path required = catch (sys.lstat path >>= λ stat. pure (ok (some stat))) (λ e.
      if is_missing e
      then (if required
          then throw (staged (failed (units "required checkpoint is unavailable")))
          else pure (ok none))
      else throw (staged (failed (units "checkpoint could not be inspected"))))

  unfoldable pub check_checkpoint : FileStat → Result Thrown (Unit {0})
  check_checkpoint before =
      if not (is_file before) || is_symbolic_link before
      then err (staged (failed (units "checkpoint must be a regular non-symlink file")))
      else throw_if (not (before.nlink == 1))
          (staged (failed (units "checkpoint must have exactly one hard link")))

  unfoldable pub check_fenced : FileStat → ℕ → ℕ → FileStat → Result Thrown (Unit {0})
  check_fenced before uid gid after =
      if not (after.dev == before.dev) || not (after.ino == before.ino) || not (after.nlink == 1)
      then err (staged (failed (units "checkpoint changed while being fenced")))
      else throw_if (not (permissions after == 384) || not (is_owned uid gid after))
          (staged (failed (units "checkpoint owner/mode fence failed")))

  -- `try { … } finally { closeSync(descriptor) }`
  unfoldable pub inspect_fenced : FileStat → ℕ → ℕ → ℕ → Act S (Unit {0})
  inspect_fenced before uid gid fd s =
      let checked : Result Thrown (Unit {0}) × S =
        (descriptor_stat sys fd (units "checkpoint") >>= λ after.
        pure (check_fenced before uid gid after))
          s in
      replace checked.0 (sys.close fd checked.1)

  unfoldable pub fence_checkpoint : Text → ℕ → ℕ → Bool → Act S Bool
  fence_checkpoint path uid gid required = checkpoint_stat path required >>= λ found. elim found [
    | none ↦ pure (ok false)
    | some before ↦
        pure (check_checkpoint before)
        >> (sys.chmod path 384
            >> (chown_requested sys path uid gid
                >> (sys.open_read path >>= λ fd.
                    inspect_fenced before uid gid fd >> pure (ok true))))
  ]

  -- the loops of `main`
  unfoldable pub copy_all : Arguments → List CopyRequest → Act S (Unit {0})
  copy_all args [] = pure (ok tt)
  copy_all args (request ∷ requests) =
      copy_protected_file sys request args.uid args.gid args.max_bytes >> copy_all args requests

  abbrev pub root_of : CopyRequest → Directory
  root_of request = record {
    source = request.source;
    target = request.target;
    label = units "auth directory";
    relative = [];
  }

  unfoldable pub copy_trees : ℕ → Arguments → List CopyRequest → Act S AuthTreeResult
  copy_trees depth args [] = pure (ok empty_result)
  copy_trees depth args (request ∷ requests) =
      copy_auth_tree sys args.uid args.gid args.max_bytes args.excluded depth (root_of request)
      >>= λ r. copy_trees depth args requests >>= λ rest. pure (ok (add_result r rest))

  unfoldable pub stage_checkpoint : Arguments → Act S Bool
  stage_checkpoint args = elim args.checkpoint [
    | none ↦ pure (ok false)
    | some path ↦ fence_checkpoint path args.uid args.gid args.checkpoint_required
  ]

  unfoldable pub check_root : Arguments → Result Thrown (Unit {0})
  check_root args =
      throw_if (lacks_root sys.current_uid sys.current_gid args)
        (staged (failed (units "stage-protected-inputs must run as root when changing ownership")))

  unfoldable pub stage_inputs : ℕ → Arguments → Act S Summary
  stage_inputs depth args =
      pure (check_root args)
      >> (copy_all args args.copies
          >> (copy_trees depth args args.auth_directories >>= λ tree.
              pure (
                throw_if (not (all (λ path. contains path tree.matched) args.excluded))
                  (staged (failed (units "requested auth exclusion directory was not found"))))
              >> (stage_checkpoint args >>= λ present. pure (
                  ok (record {
                    tree = tree;
                    checkpoint_present = present;
                    copied_count = length args.copies;
                    gid = args.gid;
                    uid = args.uid;
                  })))))

  abbrev parsed : Staged Arguments → Result Thrown Arguments
  parsed (ok args) = ok args
  parsed (err failure) = err (staged failure)

  -- `main`, whose trees are no deeper than `depth`
  unfoldable pub main : ℕ → List Text → Act S Summary
  main depth argv = pure (parsed (parse_arguments argv)) >>= stage_inputs depth

-- What the process does in the end: the output, the error output and the exit code.
pub data Exit : Type 0 where
  exit : (output errors : Text) (code : ℕ) → Exit
  no_exit : Exit

unfoldable pub exit_of : Result Thrown Summary → Exit
exit_of (ok summary) = exit (summary_text summary) [] 0
exit_of (err (staged help)) = exit (usage ++ 0x0a ∷ []) [] 0
exit_of (err (staged (failed message))) = exit [] (message ++ 0x0a ∷ []) 2
exit_of (err (staged out_of_fuel)) = no_exit
exit_of (err (system code)) = exit [] (units "protected-input staging failed" ++ 0x0a ∷ []) 2
