-- ===== src/Stage/Checked.antt =====
-- The checks behind the loop of `parseArguments`, and the end of the loop.
use memeloop_token_center_mi.Common.{
  passed_unless, ◌≡◌, ◌≢◌, refl, sym, ap, ◌∙◌, inl, inr, ◌⊎◌, true, false, not, ◌&&◌, Option, none,
  some, List, [], ◌∷◌, Text, contains, ◌==◌, length, map, ok, throw_if, throw_if-eq-ok, >>=-eq-ok,
  ok_inj, All, arith, Bool-cases,
}
use mathlib.Core.Path.{subst}
use memeloop_token_center_mi.Routes.Strings.{distinct}
use memeloop_token_center_mi.Routes.Serve.{is_given}
use memeloop_token_center_mi.Routes.Sorting.{IsDistinct, length-distinct-IsDistinct, unseen_split}
use memeloop_token_center_mi.Stage.Options.{Arguments, defaults}
use memeloop_token_center_mi.Stage.Args.{
  parse_loop, check_targets, targets, has_work, check_arguments, parse_arguments,
}
use memeloop_token_center_mi.Stage.Accepted.{parse_loop-AreKept}
use memeloop_token_center_mi.Stage.Readers.{AreValid, AreKept-AreValid}

map_self : (ts : List Text) → map (λ x. x) ts ≡ ts
map_self [] = refl
map_self (t ∷ ts) = ap (λ x. t ∷ x) (map_self ts)

check_targets-IsDistinct :
    (seen ts : List Text)
    → check_targets seen ts ≡ ok tt
    → IsDistinct ts × All (λ t. contains t seen ≡ false) ts
unfolding check_targets
check_targets-IsDistinct seen [] h = (tt, tt)
check_targets-IsDistinct seen (t ∷ ts) h =
    let (fresh, h) = passed_unless (contains t seen) (check_targets (t ∷ seen) ts) tt _ h in
    let (distinct', new) = check_targets-IsDistinct (t ∷ seen) ts h in
    let (apart, before) = unseen_split (λ (x : Text). x) t seen ts new in
    ((ap (contains t) (sym (map_self ts)) ∙ apart, distinct'), (fresh, before))

-- What an accepted command line asks for.
pub AsksFor : Arguments → Type 0
AsksFor a =
    AreValid a
    × IsDistinct (targets a)
    × IsDistinct a.excluded
    × ((length a.copies ≢ 0) ⊎ ((length a.auth_directories ≢ 0) ⊎ (a.checkpoint ≢ none)))
    × ((length a.excluded ≢ 0) → length a.auth_directories ≢ 0)

is_given-≢ : (o : Option Text) → is_given o ≡ true → o ≢ none
is_given-≢ none h = cc
is_given-≢ (some p) h = λ e. cc

work_given :
    (a : Arguments)
    → has_work a ≡ true
    → (length a.copies ≢ 0) ⊎ ((length a.auth_directories ≢ 0) ⊎ (a.checkpoint ≢ none))
work_given a h = elim (Bool-cases (length a.copies == 0)) [
  | inl no_copy ↦ inr (elim (Bool-cases (length a.auth_directories == 0)) [
    | inl no_directory ↦ inr (is_given-≢ a.checkpoint (ground (arith, h, no_copy, no_directory)))
    | inr some_directory ↦ inl (ground (arith, some_directory))
  ])
  | inr some_copy ↦ inl (ground (arith, some_copy))
]

-- Every command line that is accepted asks for something to do, with absolute paths, limits within
-- their ranges, exclusions that are relative and distinct and that some directory is there for, and no
-- two copies into one target.
pub parse_arguments-AsksFor :
    (argv : List Text) (a : Arguments) → parse_arguments argv ≡ ok a → AsksFor a
unfolding parse_arguments check_arguments AsksFor
parse_arguments-AsksFor argv a h =
    let (b, parsed, h) = >>=-eq-ok (parse_loop (length argv) argv defaults) _ h in
    let kept =
      parse_loop-AreKept (length argv) argv defaults b
        (tt, tt, tt, tt, omega arith, omega arith, omega arith) parsed in
    let (_, work, h) = >>=-eq-ok (throw_if (not (has_work b)) _) _ h in
    let (_, excluded, h) =
      >>=-eq-ok (throw_if (not (length b.excluded == 0) && length b.auth_directories == 0) _) _ h in
    let (_, apart, h) =
      >>=-eq-ok (throw_if (not (length (distinct b.excluded) == length b.excluded)) _) _ h in
    let (u, once, h) = >>=-eq-ok (check_targets [] (targets b)) _ h in
    subst AsksFor (ok_inj h) (
      AreKept-AreValid b kept,
      (check_targets-IsDistinct [] (targets b) once).0,
      length-distinct-IsDistinct b.excluded (ground (arith, throw_if-eq-ok _ _ apart)),
      work_given b (ground (arith, throw_if-eq-ok _ _ work)),
      λ n. ground (arith, throw_if-eq-ok _ _ excluded, n),
    )

pub check_arguments-eq : (b a : Arguments) → check_arguments b ≡ ok a → b ≡ a
unfolding check_arguments
check_arguments-eq b a h =
    let (_, _, h) = >>=-eq-ok (throw_if (not (has_work b)) _) _ h in
    let (_, _, h) =
      >>=-eq-ok (throw_if (not (length b.excluded == 0) && length b.auth_directories == 0) _) _ h in
    let (_, _, h) =
      >>=-eq-ok (throw_if (not (length (distinct b.excluded) == length b.excluded)) _) _ h in
    let (_, _, h) = >>=-eq-ok (check_targets [] (targets b)) _ h in ok_inj h
