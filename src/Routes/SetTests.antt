-- ===== src/Routes/SetTests.antt =====
-- Runs of the candidate material and of the snapshot document.
use memeloop_token_center_mi.Routes.Strings.{
  starts_with, sort_by, insert, less, distinct_from, trim, trim_start, is_blank, byte_length, split,
}
use mathlib.Core.List.{Perm}
use memeloop_token_center_mi.Json.Parser.{behind, Value, int, str, arr, obj, nil, cons, field, end}
use memeloop_token_center_mi.Common.{
  All, ◌≡◌, ◌≢◌, ◌≤◌, ℕ, refl, Bool, false, Option, none, some, List, [], ◌∷◌, Text, units, length,
  ok, err,
}
use memeloop_token_center_mi.Json.Print.{print, body_text}
use memeloop_token_center_mi.Routes.Schema.{
  failure, get, object, is_public_text, text, source_text, relative_auth_path,
}
use memeloop_token_center_mi.Routes.Regexp.{max_models}
use memeloop_token_center_mi.Routes.Config.{lower_texts}
use memeloop_token_center_mi.Routes.Auths.{
  registered, snapshot_entry, snapshot_from, snapshot_models,
}
use memeloop_token_center_mi.Routes.Serve.{coordinate, coordinate_key}
use memeloop_token_center_mi.Routes.Material.{
  MaterialModel, model_key, ParsedSnapshot, stable_text, elements_of, registered_texts, entry_of,
  entries_of, parse_snapshot, check_sets, candidate_sets,
}
use memeloop_token_center_mi.Routes.Snapshots.{IsEntry, document_of, parse_snapshot-document}
use memeloop_token_center_mi.Routes.Sets.{IsSorted, AreMaterial, candidate_sets-AreMaterial}

material : Unit {0}
unfolding starts_with behind print body_text sort_by insert less distinct_from trim trim_start
    is_blank byte_length split get object is_public_text text source_text relative_auth_path
    lower_texts registered snapshot_entry snapshot_from snapshot_models coordinate coordinate_key
    stable_text elements_of registered_texts entry_of entries_of parse_snapshot check_sets
    candidate_sets
material = tt

abbrev same_case : Text → Text
same_case t = t

abbrev no_reals : Bool → Text → Option ℕ
no_reals negative s = none

abbrev digest : Text
digest = units "00112233445566778899aabbccddeeff00112233445566778899aabbccddeeff"

abbrev model_of : Text → MaterialModel
model_of name = record {
  source = record {
    provider = units "codex";
    model = name;
    group = none;
    upstream_prefix = none;
    protocol = units "openai";
  };
  upstream_model = name;
  protocol = units "openai";
  selection = units "equal_round_robin";
  candidates =
      record {
        source_stable_id = digest;
        source_provider = units "codex";
        driver = units "openai-codex";
      }
      ∷ [];
}

abbrev given : List MaterialModel
given = model_of (units "gpt-5") ∷ model_of (units "best") ∷ []

abbrev ordered : List MaterialModel
ordered = model_of (units "best") ∷ model_of (units "gpt-5") ∷ []

given_accepted : candidate_sets same_case given ≡ ok ordered
unfolding material
given_accepted = refl

repeated_refused :
    candidate_sets same_case (model_of (units "best") ∷ model_of (units "best") ∷ [])
    ≡ err (failure "managed Codex candidate material is invalid")
unfolding material
repeated_refused = refl

other_driver_refused :
    candidate_sets same_case (
      record (model_of (units "best")) {
        candidates =
            record {
              source_stable_id = digest;
              source_provider = units "codex";
              driver = units "openai";
            }
            ∷ [];
      }
      ∷ [])
    ≡ err (failure "managed Codex candidate material is invalid")
unfolding material
other_driver_refused = refl

abbrev document : Value
document = obj (
    field (units "version") (int false 1) (
      field (units "source_config_sha256") (str digest) (
        field (units "auth_files_sha256") (str digest) (
          field (units "auth_models")
            (arr (
              cons
                (obj (
                  field (units "provider") (str (units "codex")) (
                    field (units "auth_id") (str (units "a.json")) (
                      field (units "registered_models") (arr (cons (str (units "gpt-5")) nil))
                        end))))
                nil))
            end))))

abbrev parsed : ParsedSnapshot
parsed = record {
  source_config_sha256 = digest;
  auth_files_sha256 = digest;
  auth_models =
      record {
        auth_id = units "a.json";
        provider = units "codex";
        registered_models = units "gpt-5" ∷ [];
      }
      ∷ [];
}

document_accepted : parse_snapshot same_case no_reals (some document) ≡ ok parsed
unfolding material
document_accepted = refl

candidate_sets-AreMaterial_example :
    Perm given ordered
    × IsSorted model_key ordered
    × (length given ≢ 0)
    × (length given ≤ max_models)
    × AreMaterial same_case [] given
candidate_sets-AreMaterial_example =
    candidate_sets-AreMaterial same_case given ordered given_accepted

parsed-AreEntries : All IsEntry parsed.auth_models
unfolding material
parsed-AreEntries = ((refl, refl, (refl, tt)), tt)

parsed_models :
    snapshot_models same_case parsed.auth_models ≡ ok ((units "a.json", units "gpt-5" ∷ []) ∷ [])
unfolding material
parsed_models = refl

parse_snapshot-document_example :
    parse_snapshot same_case no_reals (some (document_of parsed)) ≡ ok parsed
parse_snapshot-document_example =
    parse_snapshot-document same_case no_reals parsed ((units "a.json", units "gpt-5" ∷ []) ∷ [])
      refl refl parsed-AreEntries parsed_models
