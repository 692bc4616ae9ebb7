-- ===== src/Policy/Refined.antt =====
-- An import that returns has done what the abstract import does, and nothing else.
use memeloop_token_center_mi.Common.{
  ℕ, suc, ◌+◌, ◌≡◌, refl, inl, inr, sym, ap, ◌∙◌, Bool, true, false, not, ◌&&◌, Option, none, some,
  List, [], ◌∷◌, ◌++◌, units, Text, ltb, length, ok, ok_inj, arith, throw_unless-eq-ok, throw_if,
}
use memeloop_token_center_mi.Policy.Plan.{ImportPlan, ImportPlanItem}
use memeloop_token_center_mi.Policy.Answers.{routing, listed_routes, live_routes}
use memeloop_token_center_mi.Acts.{resume-eq-ok, resume-ends, pure_leaves, act_unless-eq-ok}
use memeloop_token_center_mi.Policy.Act.{Act}
use memeloop_token_center_mi.Policy.Execute.{
  TargetClient, Outcome, count_replayed, count_changed, is_planned, routing_path, replacement,
  read_routing, replace_routing, execute_item, execute_items, check_target, execute_plan, report,
}
use memeloop_token_center_mi.Policy.Honest.{
  IsQuiet, Granted, one_granted, grant_one, grant_one_ext, grant_all, grant_all_ext,
  is_planned-shown, IsHonest,
}

module _ {S : Type 0} (lower : Text → Text) (whole : Bool → Text → Option ℕ) (encode : Text → Text)
    (client : TargetClient S) (tenant : Text) (view : S → Text → Granted)
    (honest : IsHonest lower whole encode client tenant view) where
  pub view-read_routing :
      (item : ImportPlanItem) (s : S) (key : Text)
      → view (read_routing lower whole encode client tenant item s).1 key ≡ view s key
  unfolding read_routing
  view-read_routing item s key =
      ap (λ t. view t key)
        (pure_leaves (λ value. routing lower whole value item.key_id)
          (client.read (routing_path item ++ units "?tenant_external_id=" ++ encode tenant) s))
      ∙ honest.read_keeps (routing_path item ++ units "?tenant_external_id=" ++ encode tenant) s key

  -- a replacement that was verified is the one that the plan wants
  replaced :
      (item : ImportPlanItem) (revision : ℕ) (s t : S) {u : Unit {0}}
      → replace_routing lower whole encode client tenant item revision s ≡ (ok u, t)
      → (key : Text) → view t key ≡ grant_one item (view s) key
  unfolding replace_routing
  replaced item revision s t h key =
      let put = client.put (routing_path item) (replacement tenant item revision) s in
      let (v, e, after) = resume-eq-ok put _ h in
      let (r, f, checked) = resume-eq-ok (routing lower whole v item.key_id, put.1) _ after in
      let tells = honest.put_tells item revision s r (v, e, f) in
      let verified = throw_unless-eq-ok (is_planned r item) _ (ap (λ x. x.0) checked) in
      let granted =
        one_granted item (view s) (view put.1) key (sym tells ∙ is_planned-shown r item verified)
          (honest.put_others item revision s key) in
      ap (λ x. view x key) (sym (ap (λ x. x.1) checked)) ∙ granted

  -- one round of an applied import
  executed :
      (prior index : ℕ) (item : ImportPlanItem) (before after : Outcome) (s t : S)
      → execute_item lower whole encode client tenant true prior index item before s ≡ (ok after, t)
      → (key : Text) → view t key ≡ grant_one item (view s) key
  unfolding execute_item
  executed prior index item before after s t h key =
      let read = read_routing lower whole encode client tenant item s in
      let (r, told, guarded) = resume-eq-ok read _ h in
      let (u, checked, acted) =
        resume-eq-ok (throw_if (ltb index prior && not (is_planned r item)) _, read.1) _ guarded in
      let kept = view-read_routing item s in
      elim (act_unless-eq-ok (is_planned r item) (count_replayed before) (count_changed before)
        (replace_routing lower whole encode client tenant item r.revision) read.1 t acted) [
          | inl (planned, same_state, _) ↦
              ap (λ x. view x key) (sym same_state)
              ∙ kept key
              ∙ one_granted item (view s) (view s) key
                  (sym (honest.read_tells item s r told) ∙ is_planned-shown r item planned)
                  (λ _. refl)
          | inr (_, put, _) ↦
              replaced item r.revision read.1 t put key
              ∙ grant_one_ext item (view read.1) (view s) kept key
        ]

  counted :
      (prior index : ℕ) (item : ImportPlanItem) (before after : Outcome) (s t : S)
      → execute_item lower whole encode client tenant true prior index item before s ≡ (ok after, t)
      → after.changed + after.replayed ≡ suc (before.changed + before.replayed)
  unfolding execute_item
  counted prior index item before after s t h =
      let read = read_routing lower whole encode client tenant item s in
      let (r, told, guarded) = resume-eq-ok read _ h in
      let (u, checked, acted) =
        resume-eq-ok (throw_if (ltb index prior && not (is_planned r item)) _, read.1) _ guarded in
      elim (act_unless-eq-ok (is_planned r item) (count_replayed before) (count_changed before)
        (replace_routing lower whole encode client tenant item r.revision) read.1 t acted) [
          | inl (_, _, e) ↦ ap (λ o. o.changed + o.replayed) (sym e) ∙ omega arith
          | inr (_, _, e) ↦ ap (λ o. o.changed + o.replayed) (sym e) ∙ omega arith
        ]

  module _ (prior : ℕ) (progress : Option (ℕ → Act S (Unit {0})))
      (quiet : IsQuiet view progress) where
    pub reported :
        (apply : Bool) (progress : Option (ℕ → Act S (Unit {0}))) (completed : ℕ) (s : S)
        (key : Text)
        → IsQuiet view progress
        → view (report lower whole encode client tenant apply prior progress completed s).1 key
          ≡ view s key
    reported apply none completed s key quiet = refl
    reported false (some write) completed s key quiet = refl
    reported true (some write) completed s key quiet = quiet completed s key

    all_executed :
        (index : ℕ) (items : List ImportPlanItem) (before after : Outcome) (s t : S)
        → execute_items lower whole encode client tenant true prior progress index items before s
          ≡ (ok after, t)
        → ((key : Text) → view t key ≡ grant_all items (view s) key)
          × (after.changed + after.replayed ≡ before.changed + before.replayed + length items)
    unfolding execute_items
    all_executed index [] before after s t h = (
      λ key. ap (λ x. view x key) (sym (ap (λ r. r.1) h)),
      ap (λ o. o.changed + o.replayed) (sym (ok_inj (ap (λ r. r.0) h))) ∙ omega arith,
    )
    all_executed index (item ∷ rest) before after s t h =
        let round = execute_item lower whole encode client tenant true prior index item before s in
        let (middle, first, then_more) = resume-eq-ok round _ h in
        let told =
          report lower whole encode client tenant true prior progress (suc index) round.1 in
        let (u, said, rest_done) = resume-eq-ok told _ then_more in
        let (granted, total) = all_executed (suc index) rest middle after told.1 t rest_done in
        let quietly = (λ (k : Text).
          reported true progress (suc index) round.1 k quiet
          ∙ executed prior index item before middle s round.1 (λ i. (first i, round.1)) k) in
        (
          λ key.
              granted key ∙ grant_all_ext rest (view told.1) (grant_one item (view s)) quietly key,
          total
              ∙ omega (
                arith,
                counted prior index item before middle s round.1 (λ i. (first i, round.1)),
              ),
        )

    pub view-check_target :
        (apply : Bool) (plan : ImportPlan) (s : S) (key : Text)
        → view (check_target lower whole encode client tenant apply prior progress plan s).1 key
          ≡ view s key
    unfolding check_target
    view-check_target apply plan s key =
        let read =
          client.read
            (units "/internal/v1/model-routes?tenant_external_id="
              ++ encode tenant
              ++ units "&limit=100")
            s in
        let kept =
          honest.read_keeps
            (units "/internal/v1/model-routes?tenant_external_id="
              ++ encode tenant
              ++ units "&limit=100")
            s key in
        resume-ends (λ r. view r.1 key ≡ view s key) read _
          (λ value _.
            resume-ends (λ r. view r.1 key ≡ view s key) (listed_routes value, read.1) _
              (λ listed _.
                resume-ends (λ r. view r.1 key ≡ view s key)
                  (live_routes lower whole [] listed, read.1) _ (λ live _. kept) (λ e. kept))
              (λ e. kept))
          (λ e. kept)

    -- An import that was applied and returned leaves every key granted what the abstract import of the
    -- plan's items grants it, and counts every item once, for a target that answers what it holds.
    pub execute_plan-grants :
        (plan : ImportPlan) (s t : S) (counts : Outcome)
        → execute_plan lower whole encode client tenant true prior progress plan s ≡ (ok counts, t)
        → ((key : Text) → view t key ≡ grant_all plan.items (view s) key)
          × (counts.changed + counts.replayed ≡ length plan.items)
    unfolding execute_plan
    execute_plan-grants plan s t counts h =
        let start = check_target lower whole encode client tenant true prior progress plan s in
        let (u, passed, executed_all) = resume-eq-ok start _ h in
        let (granted, total) =
          all_executed 0 plan.items (record { changed = 0; replayed = 0 }) counts start.1 t
            executed_all in
        (
          λ key.
              granted key
              ∙ grant_all_ext plan.items (view start.1) (view s) (view-check_target true plan s)
                  key,
          total ∙ omega arith,
        )
