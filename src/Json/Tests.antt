-- ===== src/Json/Tests.antt =====
-- Runs of the parser.
use memeloop_token_center_mi.Common.{
  ◌≢◌, ◌≤◌, arith, ◌≡◌, refl, Bool, true, false, [], ◌∷◌, units, ok, err, Text,
}
use memeloop_token_center_mi.Json.Ensured.{IsClean, depth}
use memeloop_token_center_mi.Json.Accepted.{parse_strict_json-IsClean}
use memeloop_token_center_mi.Json.Print.{print, IsExact}
use memeloop_token_center_mi.Json.RoundTrip.Whole.{parse_strict_json-print}
use memeloop_token_center_mi.Json.Progress.{parse_strict_json_ends}
use memeloop_token_center_mi.Json.Strings.{out_of_fuel, invalid, duplicate_key, string, skip_space}
use memeloop_token_center_mi.Json.Number.{
  unsigned_lexeme, integer_part, fraction_part, exponent_part, number_lexeme, decimal,
}
use memeloop_token_center_mi.Json.Parser.{
  Value, null, bool, int, real, str, arr, obj, nil, cons, end, field, behind, expect, number_value,
  number, scalar, elements_end, members_end, elements, members, array, object, by_head, value,
  parse_strict_json,
}

parser : Unit {0}
unfolding string skip_space number_lexeme unsigned_lexeme integer_part fraction_part exponent_part
    decimal behind expect number_value number scalar elements_end members_end elements members array
    object by_head value parse_strict_json
parser = tt

abbrev finite : Bool → Text → Bool
finite _ _ = true

parses :
    (parse_strict_json finite 128 (units " {\"a\": [1, -20 , true], \"b\\u0041\":1.5e3} ")
      ≡ ok (
          obj (
            field
              (units "a")
              (arr (cons (int false 1) (cons (int true 20) (cons (bool true) nil))))
              (field (units "bA") (real false (units "1.5e3")) end))))
    × (parse_strict_json finite 128 (units "{\"a\":1,\"a\":2}") ≡ err duplicate_key)
    × (parse_strict_json finite 1 (units "[[[]]]") ≡ err invalid)
    × (parse_strict_json finite 2 (units "[[[]]]") ≡ ok (arr (cons (arr (cons (arr nil) nil)) nil)))
    × (parse_strict_json finite 128 (units "[1,]") ≡ err invalid)
    × (parse_strict_json finite 128 (units "01") ≡ err invalid)
    × (parse_strict_json finite 128 (units "9007199254740992") ≡ err invalid)
unfolding parser
parses = (refl, refl, refl, refl, refl, refl, refl)

-- A value that uses every part of the grammar but numbers with a fraction.
abbrev sample : Value
sample = obj (
    field (units "a") (arr (cons (int false 12) (cons null (cons (arr nil) nil))))
      (field (10 ∷ 34 ∷ 92 ∷ []) (str (units "x")) end))

sample-IsClean : IsClean sample
unfolding IsClean
sample-IsClean = (refl, (omega arith, (tt, (tt, tt))), (refl, tt, tt))

sample-IsExact : IsExact sample
unfolding IsExact
sample-IsExact = ((tt, (tt, (tt, tt))), (tt, tt))

sample-shallow : depth sample ≤ 2
unfolding depth
sample-shallow = omega arith

parse_strict_json-print_example : parse_strict_json finite 2 (print sample []) ≡ ok sample
parse_strict_json-print_example =
    parse_strict_json-print finite 2 sample sample-IsClean sample-IsExact sample-shallow

parse_strict_json-IsClean_example : IsClean sample × (depth sample ≤ 2)
parse_strict_json-IsClean_example =
    parse_strict_json-IsClean finite 2 (print sample []) sample parse_strict_json-print_example

parse_strict_json_ends_example : parse_strict_json finite 128 (units "[[1") ≢ err out_of_fuel
parse_strict_json_ends_example = parse_strict_json_ends finite 128 (units "[[1")
