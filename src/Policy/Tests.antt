-- ===== src/Policy/Tests.antt =====
-- Runs of the policy import.
use memeloop_token_center_mi.Common.{
  Option, All, contains, Any, ℕ, Bool, ◌+◌, ◌≡◌, refl, true, false, none, some, List, [], ◌∷◌, Text,
  units, ok, err,
}
use memeloop_token_center_mi.Routes.Sorting.{IsDistinct}
use memeloop_token_center_mi.Policy.Answers.{
  Checkpoint, load_checkpoint, live_route, live_routes, routing, is_unchanged, check_live,
}
use memeloop_token_center_mi.Policy.Act.{Act}
use memeloop_token_center_mi.Policy.Main.{Inputs, progress_of, import_keys}
use memeloop_token_center_mi.Policy.Imported.{
  HoldsGrantsOf, import_keys-HoldsGrantsOf, build_plan-Covers,
}
use memeloop_token_center_mi.Policy.Replay.{item_keys, IsReadable, execute_plan-replays}
use memeloop_token_center_mi.Policy.Matching.{IsItemOf}
use memeloop_token_center_mi.Policy.Schema.{
  failure, Imported, object, partial_object, string, list, number, integer, is_one, uuid, hex,
  source_policy_key_hash, uuids, unique_sorted, uuid_units,
}
use memeloop_token_center_mi.Policy.Plan.{
  Identity, ImportPlan, is_expected, validate_route, route_by_id, mapping_by_grant, key_by_hash,
  check_mappings, add_id, match_grants, item_of, items_of, insert_policy, sort_policies, items_text,
}
use memeloop_token_center_mi.Policy.Build.{
  Documents, check_identities, check_counts, parse_json, identities_from, read_documents, plan_of,
  build_plan,
}
use memeloop_token_center_mi.Policy.Execute.{
  Outcome, routing_path, replacement, read_routing, replace_routing, execute_item, execute_items,
  check_target, execute_plan,
}
use memeloop_token_center_mi.Policy.Honest.{grant_all}
use memeloop_token_center_mi.Policy.Target.{
  target, view, same_text, target-IsHonest, target-IsAtomic,
}
use memeloop_token_center_mi.Policy.Planned.{IsPlanOf, build_plan-IsPlanOf}
use memeloop_token_center_mi.Policy.Refined.{execute_plan-grants}
use memeloop_token_center_mi.Policy.Failures.{IsKeptOrPlanned, execute_plan_ends, dry_run_keeps}
use memeloop_token_center_mi.Json.Strings.{string as json_string, skip_space}
use memeloop_token_center_mi.Json.Number.{
  number_lexeme, unsigned_lexeme, integer_part, fraction_part, exponent_part, decimal,
}
use memeloop_token_center_mi.Json.Parser.{
  behind, expect, number_value, number as json_number, scalar, elements_end, members_end, elements,
  members, array, object as json_object, by_head, value, parse_strict_json,
}
use memeloop_token_center_mi.Json.Print.{print, digits_of, body_text}
use memeloop_token_center_mi.Routes.Schema.{get}
use memeloop_token_center_mi.Routes.Strings.{
  sort_by, insert, less, distinct_from, trim, trim_start, is_blank, byte_length,
}
use memeloop_token_center_mi.Policy.Parse.{
  InventoryRoute, openai, grant_key, optional_string, grant, grants_of, protocol_of, insert_source,
  sort_sources, source_of, sources_of, candidate_sources, bound_candidates, policy_of,
  policies_from, parse_native_policy, route_of,
}
use memeloop_token_center_mi.Policy.Documents.{
  inventory_route, routes_from, parse_route_inventory, target_of, mappings_from, check_snapshots,
  parse_mapping,
}
use memeloop_token_center_mi.Policy.Samples.{
  key, route, account, hash, no_reals, all_finite, earlier, one_digest, policy_document,
  inventory_document, mapping_document, bytes_of, identities,
}

policies : Unit {0}
unfolding json_string skip_space number_lexeme unsigned_lexeme integer_part fraction_part
    exponent_part decimal behind expect number_value json_number scalar elements_end members_end
    elements members array json_object by_head value parse_strict_json print digits_of body_text get
    sort_by insert less distinct_from trim trim_start is_blank byte_length object partial_object
    string list number integer is_one uuid hex source_policy_key_hash uuids unique_sorted uuid_units
    grant_key optional_string grant grants_of protocol_of insert_source sort_sources source_of
    sources_of candidate_sources bound_candidates policy_of policies_from parse_native_policy
    route_of inventory_route routes_from parse_route_inventory target_of mappings_from
    check_snapshots parse_mapping is_expected validate_route route_by_id mapping_by_grant
    key_by_hash check_mappings add_id match_grants item_of items_of insert_policy sort_policies
    items_text check_identities check_counts parse_json identities_from read_documents plan_of
    build_plan
policies = tt

abbrev reviewed : InventoryRoute
reviewed = record {
  route_id = route;
  public_model = units "gpt";
  upstream_model = units "gpt-5";
  protocol = openai;
  updated_at = 7;
  upstream_account_ids = account ∷ [];
  candidate_ids = account ∷ [];
  candidate_sources =
      record { upstream_account_id = account; source_stable_id = units "src-1" } ∷ [];
}

abbrev plan : ImportPlan
plan = record {
  items = record { key_id = key; route_ids = route ∷ [] } ∷ [];
  routes = reviewed ∷ [];
  policy_count = 1;
  enabled_policy_count = 1;
  disabled_policy_count = 0;
  grant_count = 1;
  matched_grant_count = 1;
  unmatched_grant_count = 0;
  source_digest = hash;
  mapping_digest = hash;
  inventory_digest = hash;
  plan_digest = hash;
}

plan_built :
    build_plan
      (λ t. t)
      no_reals
      all_finite
      (λ raw. some raw)
      earlier
      one_digest
      (bytes_of policy_document)
      (bytes_of mapping_document)
      (bytes_of inventory_document)
      identities
    ≡ ok (plan, units "team-1")
unfolding policies
plan_built = refl

build_plan-IsPlanOf_example :
    (documents : Documents) × (known : List Identity) × (read_documents
        (λ t. t)
        no_reals
        all_finite
        (λ raw. some raw)
        earlier
        one_digest
        (bytes_of policy_document)
        (bytes_of mapping_document)
        (bytes_of inventory_document)
      ≡ ok documents)
    × (identities_from (λ t. t) no_reals all_finite (λ raw. some raw) [] [] identities ≡ ok known)
    × (check_identities documents.policies known ≡ ok tt)
    × (plan.routes ≡ documents.routes)
    × IsPlanOf documents.policies documents.mappings known plan
build_plan-IsPlanOf_example =
    build_plan-IsPlanOf (λ t. t) no_reals all_finite (λ raw. some raw) earlier one_digest
      (bytes_of policy_document) (bytes_of mapping_document) (bytes_of inventory_document)
      identities plan (units "team-1") plan_built

executions : Unit {0}
unfolding policies live_route live_routes routing is_unchanged check_live routing_path replacement
    read_routing replace_routing execute_item execute_items check_target execute_plan
executions = tt

abbrev run : Bool → Bool → Imported Outcome × Bool
run apply granted =
    execute_plan same_text no_reals same_text target (units "team-1") apply 0 none plan granted

applied : run true false ≡ (ok (record { changed = 1; replayed = 0 }), true)
unfolding executions
applied = refl

dry : run false false ≡ (ok (record { changed = 1; replayed = 0 }), false)
unfolding executions
dry = refl

-- A checkpoint that counts an item which is not as planned stops the import.
stale_checkpoint :
    execute_plan same_text no_reals same_text target (units "team-1") true 1 none plan false
    ≡ (err (failure (units "checkpointed routing state changed after a partial apply")), false)
unfolding executions
stale_checkpoint = refl

listed :
    (check_target same_text no_reals same_text target (units "team-1") true 0 none plan true).0
    ≡ ok tt
unfolding executions
listed = refl

key_read :
    IsReadable same_text no_reals same_text target
      (units "team-1")
      view
      target-IsHonest
      (record { key_id = key; route_ids = route ∷ [] })
unfolding executions
key_read true = (record { route_ids = route ∷ []; route_group_ids = []; revision = 1 }, refl)
key_read false = (record { route_ids = []; route_group_ids = []; revision = 1 }, refl)

execute_plan-grants_example :
    ((k : Text) → view true k ≡ grant_all plan.items (view false) k) × (◌≡◌ {A = ℕ} (1 + 0) 1)
execute_plan-grants_example =
    execute_plan-grants same_text no_reals same_text target (units "team-1") view target-IsHonest 0
      none tt plan false true (record { changed = 1; replayed = 0 }) applied

execute_plan_ends_example :
    IsKeptOrPlanned true plan.items key (view false key) (view (run true false).1 key)
execute_plan_ends_example =
    execute_plan_ends same_text no_reals same_text target (units "team-1") view target-IsHonest true
      (λ _. target-IsAtomic) key 0 none tt plan false

dry_run_keeps_example : view (run false false).1 key ≡ view false key
dry_run_keeps_example =
    dry_run_keeps same_text no_reals same_text target (units "team-1") view target-IsHonest 0 none
      tt plan false key

execute_plan-replays_example : (run true true).0 ≡ ok (record { changed = 0; replayed = 1 })
execute_plan-replays_example =
    execute_plan-replays same_text no_reals same_text target (units "team-1") view target-IsHonest
      true 0 none tt tt plan false true 0 (record { changed = 1; replayed = 0 }) (key_read, tt)
      (refl, tt) applied listed

abbrev inputs : Inputs
inputs = record {
  raw_policy = bytes_of policy_document;
  raw_mapping = bytes_of mapping_document;
  raw_inventory = bytes_of inventory_document;
  identities = identities;
  requested_tenant = units "team-1";
  checkpoint = none;
}

abbrev write_nothing : Option (Checkpoint → Act Bool (Unit {0}))
write_nothing = some (λ c granted. (ok tt, granted))

imports : Unit {0}
unfolding executions load_checkpoint progress_of import_keys
imports = tt

imported :
    import_keys same_text no_reals all_finite
      (λ raw. some raw)
      earlier
      one_digest
      same_text
      target
      inputs
      true
      write_nothing
      false
    ≡ (ok (record { changed = 1; replayed = 0 }), true)
unfolding imports
imported = refl

-- A mapping that was reviewed for another tenant is refused before anything is read of the target.
other_tenant :
    import_keys same_text no_reals all_finite
      (λ raw. some raw)
      earlier
      one_digest
      same_text
      target
      (record inputs { requested_tenant = units "team-2" })
      true
      write_nothing
      false
    ≡ (err (failure (units "reviewed tenant does not match the requested tenant")), false)
unfolding imports
other_tenant = refl

import_keys-HoldsGrantsOf_example :
    (plan : ImportPlan) × (documents : Documents) × (known : List Identity) × (build_plan same_text
        no_reals all_finite
        (λ raw. some raw)
        earlier
        one_digest
        inputs.raw_policy
        inputs.raw_mapping
        inputs.raw_inventory
        inputs.identities
      ≡ ok (plan, inputs.requested_tenant))
    × (read_documents same_text no_reals all_finite
          (λ raw. some raw)
          earlier
          one_digest
          inputs.raw_policy
          inputs.raw_mapping
          inputs.raw_inventory
        ≡ ok documents)
    × (identities_from same_text no_reals all_finite (λ raw. some raw) [] [] inputs.identities
        ≡ ok known)
    × All (HoldsGrantsOf known documents.mappings (view true)) documents.policies
    × ((k : Text) → contains k (item_keys plan.items) ≡ false → view true k ≡ view false k)
import_keys-HoldsGrantsOf_example =
    import_keys-HoldsGrantsOf same_text no_reals all_finite (λ raw. some raw) earlier one_digest
      same_text target view inputs write_nothing false true (record { changed = 1; replayed = 0 })
      target-IsHonest (λ c s k. refl) imported

build_plan-Covers_example :
    (documents : Documents) × (known : List Identity) × (read_documents
        (λ t. t)
        no_reals
        all_finite
        (λ raw. some raw)
        earlier
        one_digest
        (bytes_of policy_document)
        (bytes_of mapping_document)
        (bytes_of inventory_document)
      ≡ ok documents)
    × (identities_from (λ t. t) no_reals all_finite (λ raw. some raw) [] [] identities ≡ ok known)
    × All
        (λ p. Any (λ item. IsItemOf known documents.mappings item p) plan.items)
        documents.policies
    × IsDistinct (item_keys plan.items)
build_plan-Covers_example =
    build_plan-Covers (λ t. t) no_reals all_finite (λ raw. some raw) earlier one_digest
      (bytes_of policy_document) (bytes_of mapping_document) (bytes_of inventory_document)
      identities plan (units "team-1") plan_built
