-- ===== src/Stage/Args.antt =====
-- `parseArguments` of ops/ci/stage-protected-inputs.ts and its helpers.
use memeloop_token_center_mi.Routes.Serve.{is_given}
use memeloop_token_center_mi.Common.{
  String, ℕ, zero, suc, Bool, true, not, ◌&&◌, ◌||◌, none, some, List, [], ◌∷◌, ◌++◌, Text, units,
  contains, ◌==◌, if◌then◌else◌, length, map, ok, err, throw_if, ◌>>=◌, ◌>>◌,
}
use memeloop_token_center_mi.Json.Number.{safe_integer_max}
use memeloop_token_center_mi.Routes.Strings.{distinct}
use memeloop_token_center_mi.Stage.Options.{
  help, failed, out_of_fuel, Staged, fail, CopyRequest, Arguments, defaults, unsigned, path_value,
  next_value, cut, relative_directory, Limit, target_uid, target_gid, max_bytes_limit, Form,
  help_form, copy_form, auth_form, exclude_form, checkpoint_form, required_form, unknown_form,
  copy_inline, auth_inline, exclude_inline, checkpoint_inline, limit_form, limit_inline, form_of,
}

-- `parseCopy`, and the same for directories
unfoldable pub parse_pair : Text → String → String → List Text → Staged (CopyRequest × List Text)
parse_pair option source_label target_label rest = do
  first ← next_value rest option
  source ← path_value first.0 source_label
  second ← next_value first.1 option
  target ← path_value second.0 target_label
  ok (record { source = source; target = target }, second.1)

abbrev pub option_name : Text → Text
option_name argument = elim (cut argument) [ some (name, _) ↦ name | none ↦ argument ]

unfoldable pub inline_halves : Text → Text → Staged (Text × Text)
inline_halves argument value = elim (cut value) [
  | none ↦ fail (option_name argument ++ units " requires SOURCE=TARGET")
  | some (before, after) ↦
      if length before == 0 || length after == 0
      then fail (option_name argument ++ units " requires SOURCE=TARGET")
      else ok (before, after)
]

unfoldable pub inline_pair : Text → Text → String → String → Staged CopyRequest
inline_pair argument value source_label target_label = do
  halves ← inline_halves argument value
  source ← path_value halves.0 source_label
  target ← path_value halves.1 target_label
  ok (record { source = source; target = target })

abbrev pub maximum_of : Limit → ℕ
maximum_of max_bytes_limit = safe_integer_max
maximum_of _ = 0xffff_ffff

abbrev pub with_limit : Limit → ℕ → Arguments → Arguments
with_limit target_uid n arguments = record arguments { uid = n }
with_limit target_gid n arguments = record arguments { gid = n }
with_limit max_bytes_limit n arguments = record arguments { max_bytes = n }

abbrev pub with_copy : CopyRequest → Arguments → Arguments
with_copy request arguments = record arguments { copies = arguments.copies ++ request ∷ [] }

abbrev pub with_directory : CopyRequest → Arguments → Arguments
with_directory request arguments = record arguments {
  auth_directories = arguments.auth_directories ++ request ∷ [];
}

abbrev pub with_exclusion : Text → Arguments → Arguments
with_exclusion path arguments = record arguments { excluded = arguments.excluded ++ path ∷ [] }

abbrev pub with_checkpoint : Text → Arguments → Arguments
with_checkpoint path arguments = record arguments { checkpoint = some path }

-- one round of the loop: the arguments so far, and what stands behind those that it took
unfoldable pub take_form : Form → Text → List Text → Arguments → Staged (Arguments × List Text)
take_form help_form argument rest arguments = err help
take_form copy_form argument rest arguments =
    parse_pair argument "copy source" "copy target" rest >>= λ p. ok (with_copy p.0 arguments, p.1)
take_form auth_form argument rest arguments =
    parse_pair argument "auth source directory" "auth target directory" rest >>= λ p.
    ok (with_directory p.0 arguments, p.1)
take_form exclude_form argument rest arguments = next_value rest argument >>= λ v.
    relative_directory v.0 >>= λ path. ok (with_exclusion path arguments, v.1)
take_form checkpoint_form argument rest arguments = next_value rest argument >>= λ v.
    path_value v.0 "checkpoint" >>= λ path. ok (with_checkpoint path arguments, v.1)
take_form required_form argument rest arguments =
    ok (record arguments { checkpoint_required = true }, rest)
take_form unknown_form argument rest arguments = fail (units "unknown argument: " ++ argument)
take_form (copy_inline value) argument rest arguments =
    inline_pair argument value "copy source" "copy target" >>= λ p. ok (with_copy p arguments, rest)
take_form (auth_inline value) argument rest arguments =
    inline_pair argument value "auth source directory" "auth target directory" >>= λ p.
    ok (with_directory p arguments, rest)
take_form (exclude_inline value) argument rest arguments =
    relative_directory value >>= λ path. ok (with_exclusion path arguments, rest)
take_form (checkpoint_inline value) argument rest arguments =
    path_value value "checkpoint" >>= λ path. ok (with_checkpoint path arguments, rest)
take_form (limit_form limit) argument rest arguments = next_value rest argument >>= λ v.
    unsigned v.0 argument (maximum_of limit) >>= λ n. ok (with_limit limit n arguments, v.1)
take_form (limit_inline limit value) argument rest arguments =
    unsigned value (option_name argument) (maximum_of limit) >>= λ n.
    ok (with_limit limit n arguments, rest)

-- the loop, on fuel; it ends since each round takes an argument at least
unfoldable pub parse_loop : ℕ → List Text → Arguments → Staged Arguments
parse_loop fuel [] arguments = ok arguments
parse_loop zero (argument ∷ rest) arguments = err out_of_fuel
parse_loop (suc fuel) (argument ∷ rest) arguments =
    take_form (form_of argument) argument rest arguments >>= λ r. parse_loop fuel r.1 r.0

-- the loop over the destinations, with those seen
unfoldable pub check_targets : List Text → List Text → Staged (Unit {0})
check_targets seen [] = ok tt
check_targets seen (target ∷ rest) =
    let others = check_targets (target ∷ seen) rest in
    if contains target seen then fail (units "duplicate destination: " ++ target) else others

abbrev pub targets : Arguments → List Text
targets arguments =
    map (λ (r : CopyRequest). r.target) arguments.copies
    ++ map (λ (r : CopyRequest). r.target) arguments.auth_directories

abbrev pub has_work : Arguments → Bool
has_work arguments =
    not (length arguments.copies == 0)
    || not (length arguments.auth_directories == 0)
    || is_given arguments.checkpoint

-- the checks behind the loop
unfoldable pub check_arguments : Arguments → Staged Arguments
check_arguments arguments = do
  throw_if (not (has_work arguments))
      (failed (units "at least one --copy, --copy-auth-dir, or --checkpoint is required"))
  throw_if (not (length arguments.excluded == 0) && length arguments.auth_directories == 0)
      (failed (units "--exclude-auth-subdir requires --copy-auth-dir"))
  throw_if (not (length (distinct arguments.excluded) == length arguments.excluded))
      (failed (units "duplicate --exclude-auth-subdir is not allowed"))
  check_targets [] (targets arguments)
  ok arguments

unfoldable pub parse_arguments : List Text → Staged Arguments
parse_arguments argv = parse_loop (length argv) argv defaults >>= check_arguments
