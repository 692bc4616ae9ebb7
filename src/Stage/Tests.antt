-- ===== src/Stage/Tests.antt =====
-- Runs of the command line's parser.
use memeloop_token_center_mi.Common.{
  ◌≡◌, refl, true, none, List, [], ◌∷◌, Text, units, ok, err, Post,
}
use memeloop_token_center_mi.Json.Parser.{behind}
use memeloop_token_center_mi.Json.Number.{decimal}
use memeloop_token_center_mi.Routes.Strings.{starts_with, split, distinct_from}
use memeloop_token_center_mi.Stage.Options.{
  failed, Arguments, unsigned, path_value, next_value, cut, is_segment, relative_directory,
  inline_form, exact_form, form_of,
}
use memeloop_token_center_mi.Stage.Args.{
  parse_pair, inline_halves, inline_pair, take_form, parse_loop, check_targets, check_arguments,
  parse_arguments,
}
use memeloop_token_center_mi.Stage.Checked.{AsksFor, parse_arguments-AsksFor}
use memeloop_token_center_mi.Stage.Ends.{Returned, IsThrown, parse_arguments-IsThrown}
use memeloop_token_center_mi.Stage.RoundTrip.{command_line}
use memeloop_token_center_mi.Stage.NormalForm.{parse_arguments-command_line}

abbrev line : List Text
line =
    units "--copy"
    ∷ units "/run/in"
    ∷ units "/run/out"
    ∷ units "--copy-auth-dir=/auth=/staged"
    ∷ units "--exclude-auth-subdir"
    ∷ units "old/2024"
    ∷ units "--target-uid=5"
    ∷ units "--checkpoint-required"
    ∷ []

abbrev asked : Arguments
asked = record {
  copies = record { source = units "/run/in"; target = units "/run/out" } ∷ [];
  auth_directories = record { source = units "/auth"; target = units "/staged" } ∷ [];
  excluded = units "old/2024" ∷ [];
  checkpoint = none;
  checkpoint_required = true;
  uid = 5;
  gid = 10_001;
  max_bytes = 67_108_864;
}

line_accepted : parse_arguments line ≡ ok asked
unfolding parse_arguments check_arguments check_targets parse_loop take_form inline_pair
    inline_halves parse_pair form_of exact_form inline_form relative_directory is_segment cut
    next_value path_value unsigned starts_with split distinct_from behind decimal
line_accepted = refl

repeated_target :
    parse_arguments (units "--copy" ∷ units "/a" ∷ units "/b" ∷ units "--copy=/c=/b" ∷ [])
    ≡ err (failed (units "duplicate destination: /b"))
unfolding parse_arguments check_arguments check_targets parse_loop take_form inline_pair
    inline_halves parse_pair form_of exact_form inline_form relative_directory is_segment cut
    next_value path_value unsigned starts_with split distinct_from behind decimal
repeated_target = refl

parent_refused :
    parse_arguments (units "--exclude-auth-subdir=old/.." ∷ [])
    ≡ err (failed (units "excluded auth subdirectory must be a normalized relative path"))
unfolding parse_arguments check_arguments check_targets parse_loop take_form inline_pair
    inline_halves parse_pair form_of exact_form inline_form relative_directory is_segment cut
    next_value path_value unsigned starts_with split distinct_from behind decimal
parent_refused = refl

parse_arguments-AsksFor_example : AsksFor asked
parse_arguments-AsksFor_example = parse_arguments-AsksFor line asked line_accepted

parse_arguments-IsThrown_example : Post Returned IsThrown (parse_arguments line)
parse_arguments-IsThrown_example = parse_arguments-IsThrown line

parse_arguments-command_line_example : parse_arguments (command_line asked) ≡ ok asked
parse_arguments-command_line_example = parse_arguments-command_line line asked line_accepted
