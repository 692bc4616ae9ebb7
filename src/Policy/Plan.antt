-- ===== src/Policy/Plan.antt =====
-- `validateRoute` and `buildPlan`.
use memeloop_token_center_mi.Common.{
  ℕ, suc, ◌+◌, Bool, true, false, not, ◌&&◌, Option, none, some, List, [], ◌∷◌, ◌++◌, Text, units,
  text_eq, contains, ◌==◌, if◌then◌else◌, ok, err, throw_if, ◌>>◌,
}
use memeloop_token_center_mi.Json.Parser.{Value, str, arr, obj, Items, nil, cons, field, end}
use memeloop_token_center_mi.Json.Print.{print}
use memeloop_token_center_mi.Routes.Strings.{sort_by}
use memeloop_token_center_mi.Policy.Schema.{failure, Imported, same}
use memeloop_token_center_mi.Policy.Parse.{
  SourceGrant, NativePolicy, CandidateSource, Protocol, openai, anthropic, generation,
  InventoryRoute, RouteMapping, grant_key, account_ids, stable_ids,
}

pub record Identity : Type 0 where
  pub source_hash : Text
  pub key_id : Text

pub record ImportPlanItem : Type 0 where
  pub key_id : Text
  pub route_ids : List Text

-- `routes` holds the values of `routeById`.
pub record ImportPlan : Type 0 where
  pub items : List ImportPlanItem
  pub routes : List InventoryRoute
  pub policy_count : ℕ
  pub enabled_policy_count : ℕ
  pub disabled_policy_count : ℕ
  pub grant_count : ℕ
  pub matched_grant_count : ℕ
  pub unmatched_grant_count : ℕ
  pub source_digest : Text
  pub mapping_digest : Text
  pub inventory_digest : Text
  pub plan_digest : Text

abbrev pub same_protocol : Protocol → Protocol → Bool
same_protocol openai openai = true
same_protocol anthropic anthropic = true
same_protocol generation generation = true
same_protocol _ _ = false

abbrev pub same_sources : List CandidateSource → List CandidateSource → Bool
same_sources left right =
    same (account_ids left) (account_ids right) && same (stable_ids left) (stable_ids right)

-- the route is exactly the one that the mapping expects
unfoldable pub is_expected : InventoryRoute → InventoryRoute → Bool
is_expected expected route =
    text_eq route.public_model expected.public_model
    && text_eq route.upstream_model expected.upstream_model
    && same_protocol route.protocol expected.protocol
    && route.updated_at == expected.updated_at
    && same route.upstream_account_ids expected.upstream_account_ids
    && same route.candidate_ids expected.candidate_ids
    && same_sources route.candidate_sources expected.candidate_sources

unfoldable pub validate_route : RouteMapping → InventoryRoute → Imported (Unit {0})
validate_route mapping route =
    throw_if (not (is_expected mapping.expected route))
      (failure (units "a reviewed route no longer matches its exact inventory coordinates"))

-- `routeById.get(id)`
unfoldable pub route_by_id : Text → List InventoryRoute → Option InventoryRoute
route_by_id id [] = none
route_by_id id (r ∷ rs) =
    let later = route_by_id id rs in if text_eq id r.route_id then some r else later

-- `mappingByGrant.get(key)`
unfoldable pub mapping_by_grant : Text → List RouteMapping → Option RouteMapping
mapping_by_grant key [] = none
mapping_by_grant key (m ∷ ms) =
    let later = mapping_by_grant key ms in
    if text_eq key (grant_key m.source) then some m else later

-- `identityByHash.get(hash)`
unfoldable pub key_by_hash : Text → List Identity → Option Text
key_by_hash hash [] = none
key_by_hash hash (i ∷ is) =
    let later = key_by_hash hash is in if text_eq hash i.source_hash then some i.key_id else later

-- every mapping's route is in the inventory, and as expected
unfoldable pub check_mappings : List RouteMapping → List InventoryRoute → Imported (Unit {0})
check_mappings [] routes = ok tt
check_mappings (m ∷ ms) routes = elim (route_by_id m.expected.route_id routes) [
  | some route ↦ validate_route m route >> check_mappings ms routes
  | none ↦ err (failure (units "a reviewed route is absent from the inventory"))
]

-- `grantCount`, `matchedGrantCount`, `unmatchedGrantCount`
pub record Counts : Type 0 where
  pub grants : ℕ
  pub matched : ℕ
  pub missing : ℕ

abbrev pub count_matched : Counts → Counts
count_matched c = record { grants = c.grants + 1; matched = c.matched + 1; missing = c.missing }

abbrev pub count_missing : Counts → Counts
count_missing c = record { grants = c.grants + 1; matched = c.matched; missing = c.missing + 1 }

-- `routeIds.add(id)`, in the order of insertion
unfoldable pub add_id : Text → List Text → List Text
add_id id ids = if contains id ids then ids else ids ++ id ∷ []

-- the loop over the grants of one policy
unfoldable pub match_grants :
    List RouteMapping → List SourceGrant → List Text → Counts → List Text × Counts
match_grants mappings [] ids counts = (ids, counts)
match_grants mappings (g ∷ gs) ids counts = elim (mapping_by_grant (grant_key g) mappings) [
  | some mapping ↦
      match_grants mappings gs (add_id mapping.expected.route_id ids) (count_matched counts)
  | none ↦ match_grants mappings gs ids (count_missing counts)
]

-- The key of a policy without one is never asked for: `buildPlan` throws before.
abbrev pub or_no_key : Option Text → Text
or_no_key none = []
or_no_key (some key) = key

unfoldable pub item_of :
    List Identity → List RouteMapping → NativePolicy → Counts → ImportPlanItem × Counts
item_of identities mappings policy counts =
    let matches =
      (if policy.enabled then match_grants mappings policy.grants [] counts else ([], counts)) in
    (
      record {
        key_id = or_no_key (key_by_hash policy.key_hash identities);
        route_ids = sort_by (λ id. id) matches.0;
      },
      matches.1,
    )

unfoldable pub items_of :
    List Identity → List RouteMapping → List NativePolicy → Counts → List ImportPlanItem × Counts
items_of identities mappings [] counts = ([], counts)
items_of identities mappings (p ∷ ps) counts =
    let first = item_of identities mappings p counts in
    let rest = items_of identities mappings ps first.1 in (first.0 ∷ rest.0, rest.1)

unfoldable pub insert_policy :
    (Text → Text → Bool) → NativePolicy → List NativePolicy → List NativePolicy
insert_policy before p [] = p ∷ []
insert_policy before p (q ∷ qs) =
    let later = q ∷ insert_policy before p qs in
    if before q.key_hash p.key_hash then later else p ∷ q ∷ qs

-- `[...policies].sort((a, b) => a.keyHash.localeCompare(b.keyHash))`
unfoldable pub sort_policies : (Text → Text → Bool) → List NativePolicy → List NativePolicy
sort_policies before [] = []
sort_policies before (p ∷ ps) = insert_policy before p (sort_policies before ps)

abbrev pub text_items : List Text → Items
text_items [] = nil
text_items (t ∷ ts) = cons (str t) (text_items ts)

abbrev item_value : ImportPlanItem → Value
item_value item = obj (
    field (units "keyId") (str item.key_id)
      (field (units "routeIds") (arr (text_items item.route_ids)) end))

abbrev item_values : List ImportPlanItem → Items
item_values [] = nil
item_values (i ∷ is) = cons (item_value i) (item_values is)

-- `JSON.stringify(items)`, which is ASCII: its units are its bytes
unfoldable pub items_text : List ImportPlanItem → Text
items_text items = print (arr (item_values items)) []

abbrev pub enabled_count : List NativePolicy → ℕ
enabled_count [] = 0
enabled_count (p ∷ ps) = if p.enabled then suc (enabled_count ps) else enabled_count ps

abbrev pub disabled_count : List NativePolicy → ℕ
disabled_count [] = 0
disabled_count (p ∷ ps) = if p.enabled then disabled_count ps else suc (disabled_count ps)
