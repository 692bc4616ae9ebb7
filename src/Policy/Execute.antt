-- ===== src/Policy/Execute.antt =====
-- `executePlan`: the comparison with the live target, and the replacement of every key's routes.
use memeloop_token_center_mi.Common.{
  ℕ, suc, ◌+◌, Bool, false, not, ◌&&◌, Option, none, some, List, [], ◌∷◌, ◌++◌, Text, units, ltb,
  ◌==◌, if◌then◌else◌, length, ok, throw_if,
}
use memeloop_token_center_mi.Json.Parser.{Value, int, str, arr, obj, nil, field, end}
use memeloop_token_center_mi.Policy.Schema.{failure, same}
use memeloop_token_center_mi.Policy.Plan.{ImportPlan, ImportPlanItem, text_items}
use memeloop_token_center_mi.Policy.Answers.{
  Routing, listed_routes, live_routes, check_live, routing,
}
use memeloop_token_center_mi.Acts.{pure, ◌>>=◌, ◌>>◌, when}
use memeloop_token_center_mi.Policy.Act.{Act}

-- `TargetClient`, on a state of the target
pub record TargetClient (S : Type 0) : Type 0 where
  pub read : Text → Act S Value
  pub put : Text → Value → Act S Value

-- `{ changed, replayed }`
pub record Outcome : Type 0 where
  pub changed : ℕ
  pub replayed : ℕ

-- `identical`
abbrev pub is_planned : Routing → ImportPlanItem → Bool
is_planned current item =
    same current.route_ids item.route_ids && length current.route_group_ids == 0

unfoldable pub routing_path : ImportPlanItem → Text
routing_path item = units "/internal/v1/keys/" ++ item.key_id ++ units "/routing"

unfoldable pub replacement : Text → ImportPlanItem → ℕ → Value
replacement tenant item revision = obj (
    field (units "tenant_external_id") (str tenant) (
      field (units "route_ids") (arr (text_items item.route_ids)) (
        field (units "route_group_ids") (arr nil)
          (field (units "expected_grant_revision") (int false revision) end))))

abbrev pub count_replayed : Outcome → Outcome
count_replayed o = record { changed = o.changed; replayed = o.replayed + 1 }

abbrev pub count_changed : Outcome → Outcome
count_changed o = record { changed = o.changed + 1; replayed = o.replayed }

-- `encode` is `encodeURIComponent`; `progress` is what is called with the count of completed items.
module _ {S : Type 0} (lower : Text → Text) (whole : Bool → Text → Option ℕ) (encode : Text → Text)
    (client : TargetClient S) (tenant : Text) where
  unfoldable pub read_routing : ImportPlanItem → Act S Routing
  read_routing item =
      client.read (routing_path item ++ units "?tenant_external_id=" ++ encode tenant) >>= λ value.
      pure (routing lower whole value item.key_id)

  unfoldable pub replace_routing : ImportPlanItem → ℕ → Act S (Unit {0})
  replace_routing item revision =
      client.put (routing_path item) (replacement tenant item revision) >>= λ value.
      pure (routing lower whole value item.key_id) >>= λ updated. pure (
        throw_if (not (is_planned updated item))
          (failure (units "target control API did not verify the routing replacement")))

  -- one round of the loop, up to the call of `progress`
  unfoldable pub execute_item : Bool → ℕ → ℕ → ImportPlanItem → Outcome → Act S Outcome
  execute_item apply prior index item counts = do
    current ← read_routing item
    pure (
        throw_if (ltb index prior && not (is_planned current item))
          (failure (units "checkpointed routing state changed after a partial apply")))
    if is_planned current item
        then pure (ok (count_replayed counts))
        else (when apply (replace_routing item current.revision)
            >> pure (ok (count_changed counts)))

  module _ (apply : Bool) (prior : ℕ) (progress : Option (ℕ → Act S (Unit {0}))) where
    abbrev pub report : ℕ → Act S (Unit {0})
    report completed = elim progress [
      | none ↦ pure (ok tt)
      | some write ↦ when apply (write completed)
    ]

    -- the loop over the items from an index on
    unfoldable pub execute_items : ℕ → List ImportPlanItem → Outcome → Act S Outcome
    execute_items index [] counts = pure (ok counts)
    execute_items index (item ∷ rest) counts =
        execute_item apply prior index item counts >>= λ after.
        report (suc index) >> execute_items (suc index) rest after

    unfoldable pub check_target : ImportPlan → Act S (Unit {0})
    check_target plan =
        client.read (
          units "/internal/v1/model-routes?tenant_external_id="
          ++ encode tenant
          ++ units "&limit=100")
        >>= λ value. pure (listed_routes value) >>= λ listed.
            pure (live_routes lower whole [] listed) >>= λ live. pure (check_live plan.routes live)

    unfoldable pub execute_plan : ImportPlan → Act S Outcome
    execute_plan plan =
        check_target plan >> execute_items 0 plan.items (record { changed = 0; replayed = 0 })
