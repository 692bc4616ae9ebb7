-- ===== src/Routes/Tests.antt =====
-- Runs of the route inspection.
use memeloop_token_center_mi.Common.{
  String, ℕ, ◌%◌, ◌+◌, ◌≡◌, ◌≢◌, ◌↔◌, refl, arith, true, false, ◌&&◌, leb, if◌then◌else◌, Option,
  none, some, List, [], ◌∷◌, ◌++◌, Text, units, ok, err, map, length, All,
}
use memeloop_token_center_mi.Json.Parser.{
  Value, bool, str, arr, obj, nil, cons, Fields, end, field, behind,
}
use memeloop_token_center_mi.Json.Print.{print, body_text}
use memeloop_token_center_mi.Routes.Strings.{
  starts_with, ends_with, find_behind, includes, split, less, is_blank, trim_start, trim,
  byte_length, insert, sort_by, distinct_from,
}
use memeloop_token_center_mi.Routes.Schema.{
  get, object, is_public_text, text, source_text, relative_auth_path, is_source_text, failure,
}
use memeloop_token_center_mi.Routes.Wildcard.{
  Alias, skip_middles, wildcard_parts, auth_prefix, groups_from, auth_groups, wildcard,
  resolve_alias,
}
use memeloop_token_center_mi.Routes.Regexp.{literal_from, literal_go_regexp}
use memeloop_token_center_mi.Routes.Config.{
  clean_alias, aliases_from, normalize_aliases, lower_texts, normalize_excluded, rule_field,
  rule_of, rules_from, classify_rules, policy_rules, parse_classify_rules, codex_aliases,
  codex_excluded, parse_config, config_inspection, ParsedConfig,
}
use memeloop_token_center_mi.Routes.Auths.{
  SnapshotEntry, Snapshot, registered, AuthInput, ManagedAuth, snapshot_entry, snapshot_from,
  snapshot_models, active_auth, auths_from, inspect_auths,
}
use memeloop_token_center_mi.Routes.Serve.{
  Coordinate, RouteModel, coordinate_key, coordinate, auth_can_serve, select_auths, route_model,
  add_route, routes_from, inspect_route_models,
}
use memeloop_token_center_mi.Routes.Glob.{Matches, wildcard-Matches}
use memeloop_token_center_mi.Routes.Literals.{wildcard_open_iff, wildcard_literal_overlap}
use memeloop_token_center_mi.Routes.Eligible.{IsEligible, auth_can_serve-IsEligible}
use memeloop_token_center_mi.Routes.Candidates.{IsRoute}
use memeloop_token_center_mi.Routes.Exact.{route_key, inspect_route_models-IsRoute}
use memeloop_token_center_mi.Routes.Paths.{GoesDown}
use memeloop_token_center_mi.Routes.Descents.{relative_auth_path_iff}
use memeloop_token_center_mi.Routes.Inputs.{Stands, literal_go_regexp_iff}
use memeloop_token_center_mi.Routes.Aliases.{AreUsable, normalize_aliases-AreUsable}
use memeloop_token_center_mi.Routes.Sorting.{IsDistinct}

routes : Unit {0}
unfolding behind print body_text starts_with ends_with find_behind includes split less is_blank
    trim_start trim byte_length insert sort_by distinct_from get object is_public_text text
    source_text relative_auth_path skip_middles wildcard_parts auth_prefix groups_from auth_groups
    wildcard resolve_alias literal_from literal_go_regexp clean_alias aliases_from normalize_aliases
    lower_texts normalize_excluded rule_field rule_of rules_from classify_rules policy_rules
    parse_classify_rules codex_aliases codex_excluded parse_config config_inspection registered
    snapshot_entry snapshot_from snapshot_models active_auth auths_from inspect_auths coordinate_key
    coordinate auth_can_serve select_auths route_model add_route routes_from inspect_route_models
    Matches
routes = tt

abbrev lower_unit : ℕ → ℕ
lower_unit c = if leb b'A' c && leb c b'Z' then c + 32 else c

abbrev lower : Text → Text
lower s = map lower_unit s

abbrev zeros : ℕ → Text
zeros Prim.Native.Nat.ℕ.zero = []
zeros (Prim.Native.Nat.ℕ.suc n) = b'0' ∷ zeros n

-- an identity of 64 digits that tells paths of different lengths apart
abbrev id_of : Text → Text
id_of path = (48 + length path % 10) ∷ zeros 63

wildcards :
    (wildcard lower (units "gpt-*-MINI") (units "GPT-5-mini") ≡ true)
    × (wildcard lower (units "gpt-*-mini") (units "gpt-5-max") ≡ false)
    × (wildcard lower (units "a*b*c") (units "a-b-b-c") ≡ true)
    × (wildcard lower (units "a*b*c") (units "a-c") ≡ false)
    × (wildcard lower (units "*") (units "") ≡ true)
    × (wildcard lower (units "o1") (units "o3") ≡ false)
unfolding routes
wildcards = (refl, refl, refl, refl, refl, refl)

matched : Matches (units "g*-*i") (units "gpt-5-mini")
unfolding Matches
matched = (
  units "pt-5-mini",
  refl,
  (
    units "pt-5",
    units "-mini",
    refl,
    (units "mini", refl, (units "min", units "i", refl, ([], refl, refl))),
  ),
)

wildcard-Matches_example : wildcard lower (units "G*-*i") (units "gpt-5-mini") ≡ true
wildcard-Matches_example = wildcard-Matches lower (units "G*-*i") (units "gpt-5-mini") matched

wildcard_open_iff_example :
    (wildcard lower (units "GPT-*") (units "gpt-5") ≡ true)
    ↔ Matches (units "gpt-" ++ b'*' ∷ []) (units "gpt-5")
wildcard_open_iff_example =
    wildcard_open_iff lower (units "GPT-*") (units "gpt-5") (units "gpt-") refl

wildcard_literal_overlap_example :
    (wildcard lower (units "o1") (units "o1-preview-o1") ≡ true)
    × ¬ Matches (units "o1") (units "o1-preview-o1")
wildcard_literal_overlap_example =
    wildcard_literal_overlap lower (units "o1") (units "o1-preview-o1") (units "-preview-") refl
      (omega arith) refl

abbrev entry : String → Value → Fields → Fields
entry k v rest = field (units k) v rest

abbrev config_document : Value
config_document = obj (
    entry "force-model-prefix" (bool true) (
      entry "oauth-model-alias"
        (obj (
          entry "codex"
            (arr (
              cons
                (obj (entry "name" (str (units "gpt-5")) (entry "alias" (str (units "Best")) end)))
                nil))
            end))
        (entry "oauth-excluded-models"
          (obj (entry "codex" (arr (cons (str (units "*-mini")) nil)) end))
          (entry "plugins"
            (obj (
              entry "configs"
                (obj (
                  entry "cpa-key-policy"
                    (obj (
                      entry "mode" (str (units "native-access")) (
                        entry "classify_rules"
                          (arr (
                            cons
                              (obj (
                                entry "name" (str (units "Team")) (
                                  entry "enabled" (bool true) (
                                    entry "field" (str (units "filename")) (
                                      entry "group" (str (units "Team"))
                                        (entry "pattern" (str (units "\\.json")) end))))))
                              nil))
                          end)))
                    end))
                end))
            end))))

abbrev inputs : List AuthInput
inputs =
    record {
      relative_path = units "a.json";
      document = obj (entry "type" (str (units "codex")) end);
    }
    ∷ record {
      relative_path = units "bb.json";
      document = obj (entry "type" (str (units "codex")) (entry "prefix" (str (units "/p/")) end));
    }
    ∷ record {
      relative_path = units "ccc.json";
      document = obj (entry "type" (str (units "codex")) (entry "disabled" (bool true) end));
    }
    ∷ []

abbrev snapshot : List SnapshotEntry
snapshot =
    record {
      auth_id = units "a.json";
      provider = units "codex";
      registered_models = units "gpt-5" ∷ units "gpt-5-mini" ∷ [];
    }
    ∷ record {
      auth_id = units "bb.json";
      provider = units "codex";
      registered_models = units "GPT-5" ∷ [];
    }
    ∷ record { auth_id = units "ccc.json"; provider = units "codex"; registered_models = [] }
    ∷ []

abbrev asked : String → Option Text → Option Text → Coordinate
asked model group prefix = record {
  provider = units "codex";
  model = units model;
  group = group;
  upstream_prefix = prefix;
  protocol = units "openai";
}

abbrev requested : List Coordinate
requested =
    asked "best" none none ∷ asked "best" (some (units "classify:team")) (some (units "p")) ∷ []

abbrev returned : List RouteModel
returned =
    record {
      source = asked "best" (some (units "classify:team")) (some (units "p"));
      upstream_model = units "gpt-5";
      candidates = id_of (units "bb.json") ∷ [];
    }
    ∷ record {
      source = asked "best" none none;
      upstream_model = units "gpt-5";
      candidates = id_of (units "a.json") ∷ [];
    }
    ∷ []

inspected :
    inspect_route_models lower id_of 1000 (some config_document) inputs snapshot requested 32 false
    ≡ ok returned
unfolding routes
inspected = refl

abbrev InspectionOf : List RouteModel → Type 0
InspectionOf rs =
    (config : ParsedConfig) × (models : Snapshot) × (auths : List ManagedAuth) × (config_inspection
        lower 1000 (some config_document)
      ≡ ok config)
    × (snapshot_models lower snapshot ≡ ok models)
    × (inspect_auths lower inputs models config ≡ ok auths)
    × All (IsRoute lower id_of auths config) rs
    × IsDistinct (map (route_key lower id_of) rs)

inspect_route_models-IsRoute_example : InspectionOf returned
inspect_route_models-IsRoute_example =
    inspect_route_models-IsRoute lower id_of 1000 (some config_document) inputs snapshot requested
      32 false returned inspected

abbrev account : ManagedAuth
account = record {
  relative_path = units "bb.json";
  prefix = some (units "p");
  groups = units "classify:team" ∷ [];
  aliases = record { name = units "gpt-5"; alias = units "Best" } ∷ [];
  excluded = units "*-mini" ∷ [];
  registered_models = units "gpt-5" ∷ [];
}

abbrev configuration : ParsedConfig
configuration = record {
  force_model_prefix = true;
  global_aliases = [];
  global_excluded = [];
  classify = [];
}

serves :
    auth_can_serve lower account configuration
      (asked "best" (some (units "classify:team")) (some (units "p")))
    ≡ some (units "gpt-5")
unfolding routes
serves = refl

auth_can_serve-IsEligible_example :
    IsEligible lower account configuration
      (asked "best" (some (units "classify:team")) (some (units "p")))
      (units "gpt-5")
auth_can_serve-IsEligible_example =
    auth_can_serve-IsEligible lower account configuration
      (asked "best" (some (units "classify:team")) (some (units "p"))) (units "gpt-5") serves

paths :
    (relative_auth_path (some (str (units "team/a.json"))) ≡ ok (units "team/a.json"))
    × (relative_auth_path (some (str (units "a/../b.json")))
        ≡ err (failure "managed Codex auth relative path is invalid"))
    × (relative_auth_path (some (str (units "/a.json")))
        ≡ err (failure "managed Codex auth relative path is invalid"))
unfolding routes
paths = (refl, refl, refl)

relative_auth_path_iff_example :
    (relative_auth_path (some (str (units "team/a.json"))) ≡ ok (units "team/a.json")) ↔ (
      (some (str (units "team/a.json")) ≡ some (str (units "team/a.json")))
      × (is_source_text (units "team/a.json") ≡ true)
      × GoesDown (units "team/a.json"))
relative_auth_path_iff_example =
    relative_auth_path_iff (some (str (units "team/a.json"))) (units "team/a.json")

abbrev dotted : Text
dotted = b'a' ∷ 0x5c ∷ units ".json"

-- "a\.json" stands for "a.json", and a bare dot is refused
literal_go_regexp_iff_example :
    (literal_go_regexp (some (str dotted)) ≡ ok (units "a.json"))
    ↔ ((is_source_text dotted ≡ true) × Stands dotted (units "a.json") × (units "a.json" ≢ []))
literal_go_regexp_iff_example = literal_go_regexp_iff dotted (units "a.json")

patterns :
    (literal_go_regexp (some (str dotted)) ≡ ok (units "a.json"))
    × (literal_go_regexp (some (str (units "a.json")))
        ≡ err (failure "CPA key-policy classify rule pattern uses an unsupported RE2 construct"))
unfolding routes
patterns = (refl, refl)

abbrev alias_value : String → String → Value
alias_value name alias =
    obj (entry "name" (str (units name)) (entry "alias" (str (units alias)) end))

abbrev alias_values : Value
alias_values = arr (
    cons (alias_value "gpt-5" "Best") (
      cons (alias_value "o3" "BEST ")
        (cons (alias_value "same" "SAME") (cons (alias_value "o3" "slow") nil))))

abbrev kept_aliases : List Alias
kept_aliases =
    record { name = units "gpt-5"; alias = units "Best" }
    ∷ record { name = units "o3"; alias = units "slow" }
    ∷ []

normalized : normalize_aliases lower (some alias_values) "aliases" ≡ ok kept_aliases
unfolding routes
normalized = refl

normalize_aliases-AreUsable_example : AreUsable lower [] kept_aliases
normalize_aliases-AreUsable_example =
    normalize_aliases-AreUsable lower (some alias_values) "aliases" kept_aliases normalized
