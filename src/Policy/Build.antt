-- ===== src/Policy/Build.antt =====
-- `buildPlan`: the plan of an import, from the three documents and the identities of the target.
use memeloop_token_center_mi.Common.{
  ℕ, Bool, true, false, not, ◌||◌, Option, none, some, List, [], ◌∷◌, ◌++◌, Text, units, contains,
  ltb, ◌==◌, any, length, ok, err, throw_if, ◌>>=◌, ◌>>◌,
}
use memeloop_token_center_mi.Json.Parser.{Value, str, parse_strict_json}
use memeloop_token_center_mi.Policy.Schema.{failure, unmatched, Imported, uuid, hex}
use memeloop_token_center_mi.Policy.Parse.{
  NativePolicy, InventoryRoute, RouteMapping, parse_native_policy,
}
use memeloop_token_center_mi.Policy.Documents.{parse_route_inventory, parse_mapping}
use memeloop_token_center_mi.Policy.Plan.{
  Identity, ImportPlan, Counts, key_by_hash, check_mappings, items_of, items_text, sort_policies,
  enabled_count, disabled_count,
}

-- what the three documents hold
pub record Documents : Type 0 where
  pub policies : List NativePolicy
  pub routes : List InventoryRoute
  pub mappings : List RouteMapping
  pub tenant : Text

abbrev pub is_some : Option Text → Bool
is_some none = false
is_some (some _) = true

-- every source policy has an identity, and there are no others
unfoldable pub check_identities : List NativePolicy → List Identity → Imported (Unit {0})
check_identities policies identities =
    throw_if
      (not (length identities == length policies)
        || any (λ (p : NativePolicy). not (is_some (key_by_hash p.key_hash identities))) policies)
      (failure (units "active source policies and target identities do not match exactly"))

abbrev pub no_counts : Counts
no_counts = record { grants = 0; matched = 0; missing = 0 }

unfoldable pub check_counts : List NativePolicy → Counts → Imported (Unit {0})
check_counts policies counts =
    throw_if (ltb 0 counts.missing)
      (unmatched (length policies) counts.grants counts.matched counts.missing)

module _ (lower : Text → Text) (whole : Bool → Text → Option ℕ) (is_finite : Bool → Text → Bool)
    (decode : List ℕ → Option Text) where
  unfoldable pub parse_json : List ℕ → Text → Imported Value
  parse_json raw label = elim (decode raw) [
    | none ↦ err (failure (label ++ units " is not valid UTF-8"))
    | some source ↦ elim (parse_strict_json is_finite 128 source) [
      | ok v ↦ ok v
      | err _ ↦ err (failure (label ++ units " is not strict JSON"))
    ]
  ]

  -- the loop over the identities: no hash and no key a second time
  unfoldable pub identities_from : List Text → List Text → List Identity → Imported (List Identity)
  identities_from hashes keys [] = ok []
  identities_from hashes keys (i ∷ is) = do
    source_hash ← hex lower whole (some (str i.source_hash)) (units "target identity")
    key_id ← uuid lower whole (some (str i.key_id)) (units "target identity")
    throw_if (contains source_hash hashes || contains key_id keys)
        (failure (units "target identities are not one-to-one"))
    rest ← identities_from (source_hash ∷ hashes) (key_id ∷ keys) is
    ok (record { source_hash = source_hash; key_id = key_id } ∷ rest)

  module _ (before : Text → Text → Bool) (sha : List ℕ → Text) where
    unfoldable pub read_documents : List ℕ → List ℕ → List ℕ → Imported Documents
    read_documents raw_policy raw_mapping raw_inventory = do
      policy_document ← parse_json raw_policy (units "source policy")
      policies ← parse_native_policy lower whole before (some policy_document)
      inventory_document ← parse_json raw_inventory (units "route inventory")
      routes ← parse_route_inventory lower whole before (some inventory_document)
      mapping_document ← parse_json raw_mapping (units "reviewed mapping")
      parsed ←
          parse_mapping lower whole before (some mapping_document) (sha raw_policy)
            (sha raw_inventory)
      ok (record { policies = policies; routes = routes; mappings = parsed.0; tenant = parsed.1 })

    -- what is planned once everything has been read; the digests are those of the policies, the mapping
    -- and the inventory
    unfoldable pub plan_of : Text × Text × Text → Documents → List Identity → Imported ImportPlan
    plan_of digests documents known = do
      check_identities documents.policies known
      check_mappings documents.mappings documents.routes
      let planned =
          items_of known documents.mappings (sort_policies before documents.policies) no_counts
      check_counts documents.policies planned.1
      ok (record {
        items = planned.0;
        routes = documents.routes;
        policy_count = length documents.policies;
        enabled_policy_count = enabled_count documents.policies;
        disabled_policy_count = disabled_count documents.policies;
        grant_count = planned.1.grants;
        matched_grant_count = planned.1.matched;
        unmatched_grant_count = planned.1.missing;
        source_digest = digests.0;
        mapping_digest = digests.1;
        inventory_digest = digests.2;
        plan_digest = sha (items_text planned.0);
      })

    unfoldable pub build_plan :
        List ℕ → List ℕ → List ℕ → List Identity → Imported (ImportPlan × Text)
    build_plan raw_policy raw_mapping raw_inventory identities = do
      documents ← read_documents raw_policy raw_mapping raw_inventory
      known ← identities_from [] [] identities
      plan ← plan_of (sha raw_policy, sha raw_mapping, sha raw_inventory) documents known
      ok (plan, documents.tenant)
