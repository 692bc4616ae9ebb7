-- ===== src/Policy/Documents.antt =====
-- `parseRouteInventory` and `parseMapping`.
use memeloop_token_center_mi.Common.{
  ℕ, Bool, false, not, Option, some, List, [], ◌∷◌, ◌++◌, Text, units, text_eq, contains, ok,
  throw_if, ◌>>=◌, ◌>>◌,
}
use memeloop_token_center_mi.Json.Parser.{Value, Fields}
use memeloop_token_center_mi.Routes.Schema.{get}
use memeloop_token_center_mi.Policy.Schema.{
  invalid_schema, failure, Imported, is_tenant, object, string, list, is_one, uuid, hex,
}
use memeloop_token_center_mi.Policy.Parse.{
  InventoryRoute, RouteMapping, grant, grant_key, is_true, bound_candidates, route_of,
}

abbrev route_fields : List Text
route_fields =
    units "route_id"
    ∷ units "public_model"
    ∷ units "upstream_model"
    ∷ units "protocol"
    ∷ units "enabled"
    ∷ units "updated_at"
    ∷ units "upstream_account_ids"
    ∷ units "candidate_upstream_account_ids"
    ∷ units "candidate_sources"
    ∷ []

abbrev mapping_fields : List Text
mapping_fields =
    units "version"
    ∷ units "tenant_external_id"
    ∷ units "source_snapshot_sha256"
    ∷ units "route_inventory_sha256"
    ∷ units "mappings"
    ∷ []

abbrev target_fields : List Text
target_fields =
    units "route_id"
    ∷ units "expected_public_model"
    ∷ units "expected_upstream_model"
    ∷ units "expected_protocol"
    ∷ units "expected_updated_at"
    ∷ units "expected_upstream_account_ids"
    ∷ units "expected_candidate_upstream_account_ids"
    ∷ units "expected_candidate_sources"
    ∷ []

-- the name of a field of a mapping's target
abbrev expected : Text → Text
expected name = units "expected_" ++ name

module _ (lower : Text → Text) (whole : Bool → Text → Option ℕ) (before : Text → Text → Bool) where
  -- one route, its id read and not seen before
  unfoldable pub inventory_route : Fields → Text → Imported InventoryRoute
  inventory_route record' route_id = do
    throw_if (not (is_true (get (units "enabled") record')))
        (failure (units "route inventory contains a disabled selected route"))
    candidates ←
        bound_candidates lower whole before (get (units "candidate_upstream_account_ids") record')
          (get (units "candidate_sources") record') (units "route inventory item")
          (units "route inventory")
    route_of lower whole before (λ name. name) record' route_id candidates
        (units "route inventory item")

  unfoldable pub routes_from : List Text → List Value → Imported (List InventoryRoute)
  routes_from seen [] = ok []
  routes_from seen (value ∷ rest) = do
    record' ← object (some value) route_fields (units "route inventory item")
    route_id ← uuid lower whole (get (units "route_id") record') (units "route inventory item")
    throw_if (contains route_id seen) (failure (units "route inventory contains a duplicate route"))
    route ← inventory_route record' route_id
    routes ← routes_from (route_id ∷ seen) rest
    ok (route ∷ routes)

  unfoldable pub parse_route_inventory : Option Value → Imported (List InventoryRoute)
  parse_route_inventory document = do
    root ← object document (units "version" ∷ units "routes" ∷ []) (units "route inventory")
    throw_if (not (is_one lower whole (get (units "version") root)))
        (invalid_schema (units "route inventory"))
    vs ← list (get (units "routes") root) 1000 (units "route inventory")
    routes_from [] vs

  -- what one mapping expects of its route
  unfoldable pub target_of : Fields → Imported InventoryRoute
  target_of target = do
    candidates ←
        bound_candidates lower whole before
          (get (units "expected_candidate_upstream_account_ids") target)
          (get (units "expected_candidate_sources") target) (units "reviewed mapping target")
          (units "reviewed mapping")
    route_id ← uuid lower whole (get (units "route_id") target) (units "reviewed mapping target")
    route_of lower whole before expected target route_id candidates
        (units "reviewed mapping target")

  unfoldable pub mappings_from : List Text → List Value → Imported (List RouteMapping)
  mappings_from seen [] = ok []
  mappings_from seen (value ∷ rest) = do
    record' ←
        object (some value) (units "source" ∷ units "target" ∷ []) (units "reviewed mapping item")
    source ← grant (get (units "source") record') (units "reviewed source pattern")
    throw_if (contains (grant_key source) seen)
        (failure (units "reviewed mapping contains an ambiguous source pattern"))
    target ← object (get (units "target") record') target_fields (units "reviewed mapping target")
    expectation ← target_of target
    mappings ← mappings_from (grant_key source ∷ seen) rest
    ok (record { source = source; expected = expectation } ∷ mappings)

  -- the digests that the mapping names are those of the two other documents
  unfoldable pub check_snapshots : Fields → Text → Text → Imported (Unit {0})
  check_snapshots root source_digest inventory_digest = do
    throw_if (not (is_one lower whole (get (units "version") root)))
        (failure (units "reviewed mapping does not match the selected snapshots"))
    source ← hex lower whole (get (units "source_snapshot_sha256") root) (units "reviewed mapping")
    throw_if (not (text_eq source source_digest))
        (failure (units "reviewed mapping does not match the selected snapshots"))
    inventory ←
        hex lower whole (get (units "route_inventory_sha256") root) (units "reviewed mapping")
    throw_if (not (text_eq inventory inventory_digest))
        (failure (units "reviewed mapping does not match the selected snapshots"))

  unfoldable pub parse_mapping : Option Value → Text → Text → Imported (List RouteMapping × Text)
  parse_mapping document source_digest inventory_digest = do
    root ← object document mapping_fields (units "reviewed mapping")
    check_snapshots root source_digest inventory_digest
    tenant ← string (get (units "tenant_external_id") root) (units "reviewed mapping") false
    throw_if (not (is_tenant tenant)) (failure (units "reviewed mapping has an invalid tenant"))
    vs ← list (get (units "mappings") root) 10_000 (units "reviewed mapping")
    mappings ← mappings_from [] vs
    ok (mappings, tenant)
