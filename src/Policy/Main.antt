-- ===== src/Policy/Main.antt =====
-- `main` between the reading of its inputs and the printing of its summary.
use memeloop_token_center_mi.Common.{
  ℕ, Bool, true, false, not, Option, none, some, List, Text, units, text_eq, throw_if,
}
use memeloop_token_center_mi.Policy.Schema.{failure}
use memeloop_token_center_mi.Policy.Plan.{Identity, ImportPlan}
use memeloop_token_center_mi.Policy.Build.{build_plan}
use memeloop_token_center_mi.Policy.Answers.{Checkpoint, load_checkpoint}
use memeloop_token_center_mi.Acts.{pure, ◌>>=◌, ◌>>◌}
use memeloop_token_center_mi.Policy.Act.{Act}
use memeloop_token_center_mi.Policy.Execute.{TargetClient, Outcome, execute_plan}

-- What has been read when the plan is built: the files, the identities, and the checkpoint if there is one.
pub record Inputs : Type 0 where
  pub raw_policy : List ℕ
  pub raw_mapping : List ℕ
  pub raw_inventory : List ℕ
  pub identities : List Identity
  pub requested_tenant : Text
  pub checkpoint : Option (List ℕ)

abbrev pub checkpoint_at : ImportPlan → ℕ → Checkpoint
checkpoint_at plan completed = record {
  source_digest = plan.source_digest;
  mapping_digest = plan.mapping_digest;
  inventory_digest = plan.inventory_digest;
  plan_digest = plan.plan_digest;
  completed_count = completed;
}

-- `write` is `writeCheckpoint` where a checkpoint file is named.
unfoldable pub progress_of :
    {S : Type 0}
    → Bool
    → Option (Checkpoint → Act S (Unit {0}))
    → ImportPlan
    → Option (ℕ → Act S (Unit {0}))
progress_of false write plan = none
progress_of true none plan = none
progress_of true (some write) plan = some (λ completed. write (checkpoint_at plan completed))

module _ {S : Type 0} (lower : Text → Text) (whole : Bool → Text → Option ℕ)
    (is_finite : Bool → Text → Bool) (decode : List ℕ → Option Text) (before : Text → Text → Bool)
    (sha : List ℕ → Text) (encode : Text → Text) (client : TargetClient S) where
  unfoldable pub import_keys :
      Inputs → Bool → Option (Checkpoint → Act S (Unit {0})) → Act S Outcome
  import_keys inputs apply write = do
    built ← pure (
        build_plan lower whole is_finite decode before sha inputs.raw_policy inputs.raw_mapping
          inputs.raw_inventory inputs.identities)
    pure (
        throw_if (not (text_eq built.1 inputs.requested_tenant))
          (failure (units "reviewed tenant does not match the requested tenant")))
    prior ← pure (load_checkpoint lower whole is_finite decode inputs.checkpoint built.0)
    execute_plan lower whole encode client built.1 apply prior.completed_count
        (progress_of apply write built.0) built.0
