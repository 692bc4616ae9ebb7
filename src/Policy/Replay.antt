-- ===== src/Policy/Replay.antt =====
-- An import that was applied can be run again: every item is found as planned.
use memeloop_token_center_mi.Common.{
  ℕ, suc, ◌+◌, ◌≡◌, refl, ap, ◌∙◌, Bool, true, false, not, ◌&&◌, Option, none, some, List, [], ◌∷◌,
  map, Text, text_eq, text_eq_refl, contains, ltb, length, ok, arith, throw_if, All, All-map,
}
use memeloop_token_center_mi.Policy.Plan.{ImportPlan, ImportPlanItem}
use memeloop_token_center_mi.Policy.Answers.{Routing}
use memeloop_token_center_mi.Acts.{resume, resume_ok, when-ok, ◌>>◌}
use memeloop_token_center_mi.Policy.Act.{Act}
use memeloop_token_center_mi.Policy.Execute.{
  TargetClient, Outcome, count_replayed, is_planned, read_routing, execute_item, execute_items,
  check_target, execute_plan, report,
}
use memeloop_token_center_mi.Routes.Sorting.{IsDistinct}
use memeloop_token_center_mi.Policy.Honest.{
  Granted, wanted, shown-is_planned, grant_one, grant_all, IsHonest, IsQuiet,
}
use memeloop_token_center_mi.Policy.Refined.{
  view-read_routing, view-check_target, reported, execute_plan-grants,
}

abbrev pub item_keys : List ImportPlanItem → List Text
item_keys items = map (λ (item : ImportPlanItem). item.key_id) items

apart :
    (key : Text) (item : ImportPlanItem) (rest : List ImportPlanItem)
    → contains key (item_keys (item ∷ rest)) ≡ false
    → (text_eq key item.key_id ≡ false) × (contains key (item_keys rest) ≡ false)
apart key item rest h = ground arith

guard_passes :
    {E : Type 0} (early planned : Bool) (e : E)
    → planned ≡ true
    → throw_if (early && not planned) e ≡ ok tt
guard_passes early planned e h = ground arith

pub grant_all_other :
    (items : List ImportPlanItem) (v : Text → Granted) (key : Text)
    → contains key (item_keys items) ≡ false
    → grant_all items v key ≡ v key
grant_all_other [] v key h = refl
grant_all_other (item ∷ rest) v key h =
    grant_all_other rest (grant_one item v) key (apart key item rest h).1
    ∙ rw ((apart key item rest h).0) refl

abbrev pub AreWanted : List ImportPlanItem → (Text → Granted) → Type 0
AreWanted items v = All (λ (item : ImportPlanItem). v item.key_id ≡ wanted item) items

pub each_wanted :
    (items : List ImportPlanItem) (v : Text → Granted)
    → IsDistinct (item_keys items)
    → All (λ (item : ImportPlanItem). grant_all items v item.key_id ≡ wanted item) items
each_wanted [] v d = tt
each_wanted (item ∷ rest) v (new, d) = (
  grant_all_other rest (grant_one item v) item.key_id new ∙ rw (text_eq_refl item.key_id) refl,
  each_wanted rest (grant_one item v) d,
)

-- The progress is written.
abbrev pub IsWritten : {S : Type 0} → Option (ℕ → Act S (Unit {0})) → Type 0
IsWritten none = Unit
IsWritten (some write) = (completed : ℕ) (s : _) → (write completed s).0 ≡ ok tt

module _ {S : Type 0} (lower : Text → Text) (whole : Bool → Text → Option ℕ) (encode : Text → Text)
    (client : TargetClient S) (tenant : Text) (view : S → Text → Granted)
    (honest : IsHonest lower whole encode client tenant view) where
  -- The routing of the item's key can be read.
  abbrev pub IsReadable : ImportPlanItem → Type 0
  IsReadable item =
      (s : S) → (r : Routing) × ((read_routing lower whole encode client tenant item s).0 ≡ ok r)

  module _ (apply : Bool) (prior : ℕ) where
    item_replayed :
        (index : ℕ) (item : ImportPlanItem) (readable : IsReadable item) (counts : Outcome) (s : S)
        → view s item.key_id ≡ wanted item
        → (execute_item lower whole encode client tenant apply prior index item counts s)
          ≡ (ok (count_replayed counts), (read_routing lower whole encode client tenant item s).1)
    unfolding execute_item
    item_replayed index item readable counts s h =
        let (r, told) = readable s in
        let planned = shown-is_planned r item (honest.read_tells item s r told ∙ h) in
        resume_ok (read_routing lower whole encode client tenant item s) _ told
        ∙ resume_ok
            (
              throw_if (ltb index prior && not (is_planned r item)) _,
              (read_routing lower whole encode client tenant item s).1,
            )
            _ (guard_passes (ltb index prior) (is_planned r item) _ planned)
        ∙ rw (planned) refl

    module _ (progress : Option (ℕ → Act S (Unit {0}))) (quiet : IsQuiet view progress)
        (written : IsWritten progress) where
      report_passes :
          (progress : Option (ℕ → Act S (Unit {0}))) (completed : ℕ) (s : S)
          → IsWritten progress
          → (report lower whole encode client tenant apply prior progress completed s).0 ≡ ok tt
      report_passes none completed s h = refl
      report_passes (some write) completed s h = when-ok apply (write completed) s (h completed s)

      rounds_replayed :
          (index : ℕ) (items : List ImportPlanItem) (counts : Outcome) (s : S)
          → All IsReadable items
          → AreWanted items (view s)
          → (execute_items lower whole encode client tenant apply prior progress index items counts
              s).0
            ≡ ok (record { changed = counts.changed; replayed = counts.replayed + length items })
      unfolding execute_items
      rounds_replayed index [] counts s _ h =
          ap (λ n. ok (record { changed = counts.changed; replayed = n })) (omega arith)
      rounds_replayed index (item ∷ rest) counts s (can, readable) (first, h) =
          let read = read_routing lower whole encode client tenant item s in
          let go =
            execute_items lower whole encode client tenant apply prior progress (suc index) rest in
          let say = report lower whole encode client tenant apply prior progress (suc index) in
          let told =
            report lower whole encode client tenant apply prior progress (suc index) read.1 in
          let still : AreWanted rest (view told.1) =
            All-map rest
              (λ other e.
                reported lower whole encode client tenant view honest prior progress quiet apply
                  progress (suc index) read.1 other.key_id quiet
                ∙ view-read_routing lower whole encode client tenant view honest item s other.key_id
                ∙ e)
              h in
          ap (λ r. (resume (λ after. say >> go after) r).0)
            (item_replayed index item can counts s first)
          ∙ ap (λ r. r.0)
              (resume_ok told (λ _. go (count_replayed counts))
                (report_passes progress (suc index) read.1 written))
          ∙ rounds_replayed (suc index) rest (count_replayed counts) told.1 readable still
          ∙ ap (λ n. ok (record { changed = counts.changed; replayed = n })) (omega arith)

      -- An import of distinct keys that was applied and returned can be run again: for a target that
      -- answers what it holds, for every key of the plan, and lists the planned routes unchanged, a second run returns, changes
      -- nothing, and finds every item as planned, whatever number of items it takes as completed.
      pub execute_plan-replays :
          (plan : ImportPlan) (before s : S) (first_prior : ℕ) (counts : Outcome)
          → All IsReadable plan.items
          → IsDistinct (item_keys plan.items)
          → execute_plan lower whole encode client tenant true first_prior progress plan before
            ≡ (ok counts, s)
          → (check_target lower whole encode client tenant apply prior progress plan s).0 ≡ ok tt
          → (execute_plan lower whole encode client tenant apply prior progress plan s).0
            ≡ ok (record { changed = 0; replayed = length plan.items })
      unfolding execute_plan
      execute_plan-replays plan before s first_prior counts readable distinct done listed =
          let start = check_target lower whole encode client tenant apply prior progress plan s in
          let (granted, _) =
            execute_plan-grants lower whole encode client tenant view honest first_prior progress
              quiet plan before s counts done in
          let found : AreWanted plan.items (view start.1) =
            All-map plan.items
              (λ item e.
                view-check_target lower whole encode client tenant view honest prior progress quiet
                  apply plan s item.key_id
                ∙ granted item.key_id
                ∙ e)
              (each_wanted plan.items (view before) distinct) in
          ap (λ r. r.0) (resume_ok start _ listed)
          ∙ rounds_replayed 0 plan.items (record { changed = 0; replayed = 0 }) start.1 readable
              found
          ∙ ap (λ n. ok (record { changed = 0; replayed = n })) (omega arith)
