-- ===== src/Stage/Options.antt =====
-- What an argument of ops/ci/stage-protected-inputs.ts asks for, and the readers of its values.
use memeloop_token_center_mi.Common.{
  String, ℕ, Bool, false, not, ◌&&◌, ◌||◌, Option, none, some, List, [], ◌∷◌, ◌++◌, Text, units,
  text_eq, leb, ◌==◌, if◌then◌else◌, any, all, length, Result, ok, err,
}
use memeloop_token_center_mi.Json.Parser.{behind}
use memeloop_token_center_mi.Json.Number.{is_digit, decimal, safe_integer_max}
use memeloop_token_center_mi.Routes.Strings.{starts_with, split}
use memeloop_token_center_mi.Routes.Schema.{is_word, is_bad_part}

-- `help` prints the usage and exits; `failed` is a `StageError` with its message; `out_of_fuel` is none of
-- the code's.
pub data StageFailure : Type 0 where
  help : StageFailure
  failed : (message : Text) → StageFailure
  out_of_fuel : StageFailure

abbrev pub Staged {ℓ} : Type ℓ → Type ℓ
Staged A = Result StageFailure A

abbrev pub fail {ℓ} : {A : Type ℓ} → Text → Staged A
fail message = err (failed message)

pub record CopyRequest : Type 0 where
  pub source : Text
  pub target : Text

pub record Arguments : Type 0 where
  pub copies : List CopyRequest
  pub auth_directories : List CopyRequest
  pub excluded : List Text
  pub checkpoint : Option Text
  pub checkpoint_required : Bool
  pub uid : ℕ
  pub gid : ℕ
  pub max_bytes : ℕ

-- `DEFAULT_UID`, `DEFAULT_GID`, `DEFAULT_MAX_BYTES` and the variables of the loop
abbrev pub defaults : Arguments
defaults = record {
  copies = [];
  auth_directories = [];
  excluded = [];
  checkpoint = none;
  checkpoint_required = false;
  uid = 10_001;
  gid = 10_001;
  max_bytes = 67_108_864;
}

abbrev pub is_decimal : Text → Bool
is_decimal value = not (length value == 0) && all is_digit value

-- A number above the safe integers, which `Number` rounds, is no safe integer.
unfoldable pub unsigned : Text → Text → ℕ → Staged ℕ
unsigned value label maximum =
    if is_decimal value
    then (if leb (decimal 0 value) safe_integer_max && leb (decimal 0 value) maximum
        then ok (decimal 0 value)
        else fail (label ++ units " is out of range"))
    else fail (label ++ units " must be an unsigned decimal integer")

abbrev pub is_path : Text → Bool
is_path value = not (any (λ c. c == 0) value) && starts_with (units "/") value

unfoldable pub path_value : Text → String → Staged Text
path_value value label =
    if is_path value then ok value else fail (units label ++ units " must be an absolute path")

-- `nextValue(argv, index, option)`, where the list holds what stands behind `index`
unfoldable pub next_value : List Text → Text → Staged (Text × List Text)
next_value [] option = fail (option ++ units " requires a value")
next_value (value ∷ rest) option =
    if starts_with (units "--") value
    then fail (option ++ units " requires a value")
    else ok (value, rest)

-- the first "=" of a text, what stands before it and behind it
abbrev pub cut_after : ℕ → Option (Text × Text) → Option (Text × Text)
cut_after c none = none
cut_after c (some (before, after)) = some (c ∷ before, after)

unfoldable pub cut : Text → Option (Text × Text)
cut [] = none
cut (c ∷ s) = let later = cut_after c (cut s) in if c == b'=' then some ([], s) else later

-- /^[A-Za-z0-9][A-Za-z0-9._-]{0,127}$/
unfoldable pub is_segment : Text → Bool
is_segment [] = false
is_segment (c ∷ s) =
    is_word c && all (λ d. is_word d || d == b'.' || d == b'_' || d == b'-') s && leb (length s) 127

abbrev pub is_bad_segment : Text → Bool
is_bad_segment part = is_bad_part part || not (is_segment part)

-- The parts joined are the value again.
unfoldable pub relative_directory : Text → Staged Text
relative_directory value =
    if length value == 0
      || any (λ c. c == 0 || c == 0x5c || c == b'*') value
      || any is_bad_segment (split b'/' value)
    then fail (units "excluded auth subdirectory must be a normalized relative path")
    else ok value

pub data Limit : Type 0 where
  target_uid target_gid max_bytes_limit : Limit

-- what an argument asks for, by the conditions of the loop in their order
pub data Form : Type 0 where
  help_form copy_form auth_form exclude_form checkpoint_form required_form unknown_form : Form
  copy_inline auth_inline exclude_inline checkpoint_inline : (value : Text) → Form
  limit_form : Limit → Form
  limit_inline : Limit → (value : Text) → Form

-- the first form whose text the argument begins with
unfoldable pub inline_form : List (Text × (Text → Form)) → Text → Form
inline_form [] argument = unknown_form
inline_form ((name, form) ∷ rest) argument = elim (behind name argument) [
  | some value ↦ form value
  | none ↦ inline_form rest argument
]

unfoldable pub exact_form : List (Text × Form) → Form → Text → Form
exact_form [] other argument = other
exact_form ((name, form) ∷ rest) other argument =
    if text_eq argument name then form else exact_form rest other argument

abbrev pub exact_names : List (Text × Form)
exact_names =
    (units "--help", help_form)
    ∷ (units "-h", help_form)
    ∷ (units "--copy", copy_form)
    ∷ (units "--input", copy_form)
    ∷ (units "--copy-auth-dir", auth_form)
    ∷ (units "--auth-dir", auth_form)
    ∷ (units "--exclude-auth-subdir", exclude_form)
    ∷ (units "--checkpoint", checkpoint_form)
    ∷ (units "--checkpoint-required", required_form)
    ∷ (units "--target-uid", limit_form target_uid)
    ∷ (units "--target-gid", limit_form target_gid)
    ∷ (units "--max-bytes", limit_form max_bytes_limit)
    ∷ []

abbrev pub inline_names : List (Text × (Text → Form))
inline_names =
    (units "--copy-auth-dir=", auth_inline)
    ∷ (units "--auth-dir=", auth_inline)
    ∷ (units "--copy=", copy_inline)
    ∷ (units "--input=", copy_inline)
    ∷ (units "--exclude-auth-subdir=", exclude_inline)
    ∷ (units "--checkpoint=", checkpoint_inline)
    ∷ (units "--target-uid=", limit_inline target_uid)
    ∷ (units "--target-gid=", limit_inline target_gid)
    ∷ (units "--max-bytes=", limit_inline max_bytes_limit)
    ∷ []

-- An argument that equals a name begins with no name and "=", so the two kinds may be asked apart.
unfoldable pub form_of : Text → Form
form_of argument = exact_form exact_names (inline_form inline_names argument) argument
