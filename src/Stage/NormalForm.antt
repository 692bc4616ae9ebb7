-- ===== src/Stage/NormalForm.antt =====
-- Each part of a command line in normal form sets its variables.
use memeloop_token_center_mi.Stage.Checked.{check_arguments-eq}
use memeloop_token_center_mi.Stage.RoundTrip.{
  command_line, put_requests, put_exclusions, put_checkpoint, put_required, number_text, ReadsAs,
  ReadsAs-refl, ReadsAs-trans, ReadsAs-round, request_round, unsigned-number_text,
}
use mathlib.Core.Path.{subst}
use memeloop_token_center_mi.Common.{
  ℕ, ◌≤◌, ◌≡◌, refl, sym, ap, ◌∙◌, Bool, true, false, Option, none, some, List, [], ◌∷◌, ◌++◌, Text,
  units, length, ok, >>=-eq-ok, All, arith,
}
use mathlib.Core.List.{append_assoc, append-nil}
use memeloop_token_center_mi.Json.Parser.{behind}
use memeloop_token_center_mi.Json.Number.{safe_integer_max}
use memeloop_token_center_mi.Stage.Options.{
  CopyRequest, Arguments, defaults, path_value, Limit, target_uid, target_gid, max_bytes_limit,
  limit_inline, form_of, exact_form, inline_form,
}
use memeloop_token_center_mi.Stage.Args.{
  option_name, maximum_of, with_limit, with_copy, with_directory, with_exclusion, with_checkpoint,
  take_form, parse_loop, check_arguments, parse_arguments,
}
use memeloop_token_center_mi.Stage.Readers.{BothSatisfy, OptionSatisfies, AreKept, IsTaken, IsKept}
use memeloop_token_center_mi.Stage.Accepted.{parse_loop-AreKept}

copies-ReadsAs :
    (rs : List CopyRequest) (rest : List Text) (a : Arguments)
    → All (BothSatisfy IsTaken) rs
    → ReadsAs (put_requests "--copy" rs rest) a rest (record a { copies = a.copies ++ rs })
unfolding form_of exact_form take_form
copies-ReadsAs [] rest a h =
    subst (λ cs. ReadsAs rest a rest (record a { copies = cs })) (sym (append-nil a.copies))
      (ReadsAs-refl rest a)
copies-ReadsAs (r ∷ rs) rest a (h, k) =
    subst (λ cs. ReadsAs (put_requests "--copy" (r ∷ rs) rest) a rest (record a { copies = cs }))
      (append_assoc a.copies (r ∷ []) rs)
      (ReadsAs-trans _ (put_requests "--copy" rs rest) rest a (with_copy r a) _
        (ReadsAs-round (units "--copy") _ (put_requests "--copy" rs rest) a (with_copy r a)
          (omega arith)
          (rw
            (request_round "copy source" "copy target" (units "--copy") r
              (put_requests "--copy" rs rest) h)
            refl))
        (copies-ReadsAs rs rest (with_copy r a) k))

directories-ReadsAs :
    (rs : List CopyRequest) (rest : List Text) (a : Arguments)
    → All (BothSatisfy IsTaken) rs
    → ReadsAs
        (put_requests "--copy-auth-dir" rs rest)
        a
        rest
        (record a { auth_directories = a.auth_directories ++ rs })
unfolding form_of exact_form take_form
directories-ReadsAs [] rest a h =
    subst (λ cs. ReadsAs rest a rest (record a { auth_directories = cs }))
      (sym (append-nil a.auth_directories)) (ReadsAs-refl rest a)
directories-ReadsAs (r ∷ rs) rest a (h, k) =
    subst
      (λ cs.
        ReadsAs (put_requests "--copy-auth-dir" (r ∷ rs) rest) a rest
          (record a { auth_directories = cs }))
      (append_assoc a.auth_directories (r ∷ []) rs)
      (ReadsAs-trans _ (put_requests "--copy-auth-dir" rs rest) rest a (with_directory r a) _
        (ReadsAs-round (units "--copy-auth-dir") _ (put_requests "--copy-auth-dir" rs rest) a
          (with_directory r a) (omega arith)
          (rw
            (request_round "auth source directory" "auth target directory" (units "--copy-auth-dir")
              r (put_requests "--copy-auth-dir" rs rest) h)
            refl))
        (directories-ReadsAs rs rest (with_directory r a) k))

exclusions-ReadsAs :
    (es : List Text) (rest : List Text) (a : Arguments)
    → All IsKept es
    → ReadsAs (put_exclusions es rest) a rest (record a { excluded = a.excluded ++ es })
unfolding form_of exact_form inline_form behind take_form
exclusions-ReadsAs [] rest a h =
    subst (λ cs. ReadsAs rest a rest (record a { excluded = cs })) (sym (append-nil a.excluded))
      (ReadsAs-refl rest a)
exclusions-ReadsAs (e ∷ es) rest a (h, k) =
    subst (λ cs. ReadsAs (put_exclusions (e ∷ es) rest) a rest (record a { excluded = cs }))
      (append_assoc a.excluded (e ∷ []) es)
      (ReadsAs-trans _ (put_exclusions es rest) rest a (with_exclusion e a) _
        (ReadsAs-round (units "--exclude-auth-subdir=" ++ e) _ (put_exclusions es rest) a
          (with_exclusion e a) (omega arith) (rw h refl))
        (exclusions-ReadsAs es rest (with_exclusion e a) k))

checkpoint-ReadsAs :
    (o : Option Text) (rest : List Text) (a : Arguments)
    → a.checkpoint ≡ none
    → OptionSatisfies IsTaken o
    → ReadsAs (put_checkpoint o rest) a rest (record a { checkpoint = o })
unfolding form_of exact_form inline_form behind take_form path_value
checkpoint-ReadsAs none rest a e h =
    subst (λ o. ReadsAs rest a rest (record a { checkpoint = o })) e (ReadsAs-refl rest a)
checkpoint-ReadsAs (some p) rest a e h =
    ReadsAs-round (units "--checkpoint=" ++ p) rest rest a (with_checkpoint p a) (omega arith)
      (rw h refl)

required-ReadsAs :
    (b : Bool) (rest : List Text) (a : Arguments)
    → a.checkpoint_required ≡ false
    → ReadsAs (put_required b rest) a rest (record a { checkpoint_required = b })
unfolding form_of exact_form take_form
required-ReadsAs false rest a e =
    subst (λ o. ReadsAs rest a rest (record a { checkpoint_required = o })) e (ReadsAs-refl rest a)
required-ReadsAs true rest a e =
    ReadsAs-round (units "--checkpoint-required") rest rest a
      (record a { checkpoint_required = true }) (omega arith) refl

limit_round :
    (l : Limit) (name : Text) (n : ℕ) (rest : List Text) (a : Arguments)
    → n ≤ maximum_of l
    → n ≤ safe_integer_max
    → form_of (name ++ number_text n) ≡ limit_inline l (number_text n)
    → ReadsAs ((name ++ number_text n) ∷ rest) a rest (with_limit l n a)
unfolding take_form
limit_round l name n rest a h k e =
    ReadsAs-round (name ++ number_text n) rest rest a (with_limit l n a) (omega arith)
      (rw (e, unsigned-number_text n (maximum_of l) (option_name (name ++ number_text n)) h k) refl)

limits-ReadsAs :
    (u g m : ℕ) (a : Arguments)
    → u ≤ 0xffff_ffff
    → g ≤ 0xffff_ffff
    → m ≤ safe_integer_max
    → ReadsAs
        ((units "--target-uid=" ++ number_text u)
          ∷ (units "--target-gid=" ++ number_text g)
          ∷ (units "--max-bytes=" ++ number_text m)
          ∷ [])
        a
        []
        (record a { uid = u; gid = g; max_bytes = m })
unfolding form_of exact_form inline_form behind
limits-ReadsAs u g m a h k l =
    ReadsAs-trans _ _ [] a (record a { uid = u }) _
      (limit_round target_uid (units "--target-uid=") u _ a h (omega (arith, h)) refl)
      (ReadsAs-trans _ _ [] (record a { uid = u }) (record a { uid = u; gid = g }) _
        (limit_round target_gid (units "--target-gid=") g _ (record a { uid = u }) k
          (omega (arith, k)) refl)
        (limit_round max_bytes_limit (units "--max-bytes=") m [] (record a { uid = u; gid = g }) l l
          refl))

command_line-ReadsAs : (a : Arguments) → AreKept a → ReadsAs (command_line a) defaults [] a
unfolding command_line
command_line-ReadsAs a (c, d, e, k, u, g, m) =
    ReadsAs-trans _ _ [] defaults _ a (copies-ReadsAs a.copies _ defaults c) (
      ReadsAs-trans _ _ [] _ _ a (directories-ReadsAs a.auth_directories _ _ d) (
        ReadsAs-trans _ _ [] _ _ a (exclusions-ReadsAs a.excluded _ _ e) (
          ReadsAs-trans _ _ [] _ _ a (checkpoint-ReadsAs a.checkpoint _ _ refl k) (
            ReadsAs-trans _ _ [] _ _ a (required-ReadsAs a.checkpoint_required _ _ refl)
              (limits-ReadsAs a.uid a.gid a.max_bytes _ u g m)))))

loop_empty : (fuel : ℕ) (a : Arguments) → parse_loop fuel [] a ≡ ok a
unfolding parse_loop
loop_empty fuel a = refl

-- What a command line asks for can be written as a command line of one form, the copies, the
-- directories, the exclusions, the checkpoint and the limits in this order, which is accepted too and
-- asks for the same.
pub parse_arguments-command_line :
    (argv : List Text) (a : Arguments)
    → parse_arguments argv ≡ ok a
    → parse_arguments (command_line a) ≡ ok a
unfolding parse_arguments
parse_arguments-command_line argv a h =
    let (b, parsed, checked) =
      >>=-eq-ok (parse_loop (length argv) argv defaults) check_arguments h in
    let kept =
      parse_loop-AreKept (length argv) argv defaults b
        (tt, tt, tt, tt, omega arith, omega arith, omega arith) parsed in
    let same = check_arguments-eq b a checked in
    let again =
      command_line-ReadsAs a (subst AreKept same kept) (length (command_line a)) (omega arith) in
    rw (again.2, loop_empty again.0 a) (ap check_arguments (sym same) ∙ checked)
