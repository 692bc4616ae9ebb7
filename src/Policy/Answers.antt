-- ===== src/Policy/Answers.antt =====
-- What the import reads back: `liveRoute`, `routing` and `loadCheckpoint`.
use memeloop_token_center_mi.Common.{
  ℕ, Bool, false, not, ◌||◌, ◌&&◌, Option, none, some, List, [], ◌∷◌, Text, units, text_eq,
  contains, ltb, ◌==◌, length, ok, err, throw_if, ◌>>=◌, ◌>>◌,
}
use memeloop_token_center_mi.Json.Parser.{Value, arr, obj, Fields}
use memeloop_token_center_mi.Routes.Schema.{get, items}
use memeloop_token_center_mi.Policy.Schema.{
  failure, Imported, same, object, string, integer, is_one, uuid, hex, unique_sorted,
}
use memeloop_token_center_mi.Policy.Parse.{InventoryRoute, protocol_of, is_true}
use memeloop_token_center_mi.Policy.Plan.{ImportPlan, same_protocol, route_by_id}
use memeloop_token_center_mi.Policy.Build.{parse_json}

pub record Routing : Type 0 where
  pub route_ids : List Text
  pub route_group_ids : List Text
  pub revision : ℕ

pub record Checkpoint : Type 0 where
  pub source_digest : Text
  pub mapping_digest : Text
  pub inventory_digest : Text
  pub plan_digest : Text
  pub completed_count : ℕ

-- the members of an answer that has to be an object
abbrev answer : Value → Text → Imported Fields
answer (obj fields) message = ok fields
answer _ message = err (failure message)

-- the elements of an answer that has to be an array
abbrev pub listed_routes : Value → Imported (List Value)
listed_routes (arr vs) = ok (items vs)
listed_routes _ = err (failure (units "target route inventory response is invalid"))

-- every coordinate but the candidates' sources
unfoldable pub is_unchanged : InventoryRoute → InventoryRoute → Bool
is_unchanged route current =
    text_eq current.public_model route.public_model
    && text_eq current.upstream_model route.upstream_model
    && same_protocol current.protocol route.protocol
    && current.updated_at == route.updated_at
    && same current.upstream_account_ids route.upstream_account_ids
    && same current.candidate_ids route.candidate_ids

-- every planned route is live and unchanged
unfoldable pub check_live : List InventoryRoute → List InventoryRoute → Imported (Unit {0})
check_live [] live = ok tt
check_live (route ∷ routes) live = elim (route_by_id route.route_id live) [
  | none ↦ err (failure (units "a reviewed route is absent from the live target"))
  | some current ↦
      throw_if (not (is_unchanged route current))
        (failure (units "live target routes changed after review"))
      >> check_live routes live
]

abbrev checkpoint_fields : List Text
checkpoint_fields =
    units "version"
    ∷ units "source_digest"
    ∷ units "mapping_digest"
    ∷ units "inventory_digest"
    ∷ units "plan_digest"
    ∷ units "completed_count"
    ∷ []

abbrev pub empty_checkpoint : ImportPlan → Checkpoint
empty_checkpoint plan = record {
  source_digest = plan.source_digest;
  mapping_digest = plan.mapping_digest;
  inventory_digest = plan.inventory_digest;
  plan_digest = plan.plan_digest;
  completed_count = 0;
}

-- a checkpoint of this very plan
unfoldable pub is_current : ImportPlan → Checkpoint → Bool
is_current plan current =
    text_eq current.source_digest plan.source_digest
    && text_eq current.mapping_digest plan.mapping_digest
    && text_eq current.inventory_digest plan.inventory_digest
    && text_eq current.plan_digest plan.plan_digest
    && not (ltb (length plan.items) current.completed_count)

module _ (lower : Text → Text) (whole : Bool → Text → Option ℕ) where
  unfoldable pub live_route : Value → Imported InventoryRoute
  live_route value = do
    item ← answer value (units "target route inventory response is invalid")
    throw_if (not (is_true (get (units "enabled") item)))
        (failure (units "a reviewed live route is disabled"))
    route_id ← uuid lower whole (get (units "id") item) (units "target route")
    public_model ← string (get (units "public_model") item) (units "target route") false
    upstream_model ← string (get (units "upstream_model") item) (units "target route") false
    protocol ← protocol_of (get (units "protocol") item) (units "target route")
    updated_at ← integer lower whole (get (units "updated_at") item) (units "target route")
    accounts ←
        unique_sorted lower whole (get (units "upstream_account_ids") item) (units "target route")
    candidates ←
        unique_sorted lower whole (get (units "candidate_upstream_account_ids") item)
          (units "target route")
    ok (record {
      route_id = route_id;
      public_model = public_model;
      upstream_model = upstream_model;
      protocol = protocol;
      updated_at = updated_at;
      upstream_account_ids = accounts;
      candidate_ids = candidates;
      candidate_sources = [];
    })

  -- the live routes, with the ids seen
  unfoldable pub live_routes : List Text → List Value → Imported (List InventoryRoute)
  live_routes seen [] = ok []
  live_routes seen (value ∷ rest) = do
    route ← live_route value
    throw_if (contains route.route_id seen)
        (failure (units "target route inventory response is invalid"))
    routes ← live_routes (route.route_id ∷ seen) rest
    ok (route ∷ routes)

  unfoldable pub routing : Value → Text → Imported Routing
  routing value expected_key_id = do
    item ← answer value (units "target credential routing response is invalid")
    key_id ← uuid lower whole (get (units "key_id") item) (units "target routing")
    throw_if (not (text_eq key_id expected_key_id))
        (failure (units "target credential routing response is invalid"))
    route_ids ← unique_sorted lower whole (get (units "route_ids") item) (units "target routing")
    groups ← unique_sorted lower whole (get (units "route_group_ids") item) (units "target routing")
    revision ← integer lower whole (get (units "grant_revision") item) (units "target routing")
    ok (record { route_ids = route_ids; route_group_ids = groups; revision = revision })

  unfoldable pub checkpoint_of : Value → ImportPlan → Imported Checkpoint
  checkpoint_of document plan = do
    value ← object (some document) checkpoint_fields (units "checkpoint")
    source ← hex lower whole (get (units "source_digest") value) (units "checkpoint")
    mapping ← hex lower whole (get (units "mapping_digest") value) (units "checkpoint")
    inventory ← hex lower whole (get (units "inventory_digest") value) (units "checkpoint")
    planned ← hex lower whole (get (units "plan_digest") value) (units "checkpoint")
    completed ← integer lower whole (get (units "completed_count") value) (units "checkpoint")
    let current : Checkpoint = (record {
      source_digest = source;
      mapping_digest = mapping;
      inventory_digest = inventory;
      plan_digest = planned;
      completed_count = completed;
    })
    throw_if
        (not (is_one lower whole (get (units "version") value)) || not (is_current plan current))
        (failure
          (units "checkpoint conflicts with the selected source, mapping, inventory, or plan"))
    ok current

  -- The file's content is `none` where no file is named or there is none.
  unfoldable pub load_checkpoint :
      (Bool → Text → Bool)
      → (List ℕ → Option Text)
      → Option (List ℕ)
      → ImportPlan
      → Imported Checkpoint
  load_checkpoint is_finite decode none plan = ok (empty_checkpoint plan)
  load_checkpoint is_finite decode (some content) plan =
      parse_json lower whole is_finite decode content (units "checkpoint") >>= λ document.
      checkpoint_of document plan
