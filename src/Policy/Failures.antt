-- ===== src/Policy/Failures.antt =====
-- What an import leaves behind whether it returns or throws: a dry run changes nothing, and an applied
-- one grants no key anything but what the plan wants for it.
use memeloop_token_center_mi.Common.{
  ℕ, suc, ◌≡◌, refl, ◌⊎◌, inl, inr, ◌∙◌, Bool, true, false, not, ◌&&◌, Option, List, [], ◌∷◌, Text,
  text_eq, ltb, throw_if, Any,
}
use memeloop_token_center_mi.Policy.Plan.{ImportPlan, ImportPlanItem}
use memeloop_token_center_mi.Policy.Answers.{routing}
use memeloop_token_center_mi.Acts.{resume-ends, act_unless-ends}
use memeloop_token_center_mi.Policy.Act.{Act}
use memeloop_token_center_mi.Policy.Execute.{
  TargetClient, Outcome, count_replayed, count_changed, is_planned, routing_path, replacement,
  read_routing, replace_routing, execute_item, execute_items, check_target, execute_plan, report,
}
use memeloop_token_center_mi.Policy.Honest.{Granted, wanted, IsHonest, IsQuiet}
use memeloop_token_center_mi.Policy.Refined.{view-read_routing, view-check_target, reported}

-- A key's grants are as they were, or, where the import is applied, as one of the items wants them.
abbrev pub IsKeptOrPlanned : Bool → List ImportPlanItem → Text → Granted → Granted → Type 0
IsKeptOrPlanned apply items key before after =
    (after ≡ before)
    ⊎ ((apply ≡ true)
        × Any (λ item. (text_eq key item.key_id ≡ true) × (after ≡ wanted item)) items)

kept_then :
    (apply : Bool) (item : ImportPlanItem) (rest : List ImportPlanItem) (key : Text)
    (a b c : Granted)
    → IsKeptOrPlanned apply (item ∷ []) key a b
    → IsKeptOrPlanned apply rest key b c
    → IsKeptOrPlanned apply (item ∷ rest) key a c
kept_then apply item rest key a b c h (inr (applied, later)) = inr (applied, inr later)
kept_then apply item rest key a b c (inl e) (inl f) = inl (f ∙ e)
kept_then apply item rest key a b c (inr (applied, inl (k, e))) (inl f) =
    inr (applied, inl (k, f ∙ e))
kept_then apply item rest key a b c (inr (applied, inr h)) (inl f) = absurd h.lower

module _ {S : Type 0} (lower : Text → Text) (whole : Bool → Text → Option ℕ) (encode : Text → Text)
    (client : TargetClient S) (tenant : Text) (view : S → Text → Granted)
    (honest : IsHonest lower whole encode client tenant view) where
  -- A replacement that the target refused, or whose answer was lost, was done or was not.
  abbrev pub IsAtomic : Type 0
  IsAtomic =
      (item : ImportPlanItem) (revision : ℕ) (s : S) (key : Text)
      → IsKeptOrPlanned true (item ∷ []) key (view s key)
          (view (client.put (routing_path item) (replacement tenant item revision) s).1 key)

  module _ (apply : Bool) (atomic : apply ≡ true → IsAtomic) (key : Text) where
    replacement_ends :
        (item : ImportPlanItem) (revision : ℕ) (s u : S)
        → view u key ≡ view s key
        → apply ≡ true
        → IsKeptOrPlanned apply
            (item ∷ [])
            key
            (view s key)
            (view (replace_routing lower whole encode client tenant item revision u).1 key)
    unfolding replace_routing
    replacement_ends item revision s u e applied =
        let put = client.put (routing_path item) (replacement tenant item revision) u in
        let left : IsKeptOrPlanned apply (item ∷ []) key (view s key) (view put.1 key) =
          elim (atomic applied item revision u key) [
            | inl f ↦ inl (f ∙ e)
            | inr (_, h) ↦ inr (applied, h)
          ] in
        let P = (λ (t : S). IsKeptOrPlanned apply (item ∷ []) key (view s key) (view t key)) in
        resume-ends (λ r. P r.1) put _
          (λ v _.
            resume-ends (λ r. P r.1) (routing lower whole v item.key_id, put.1) _ (λ r _. left)
              (λ e. left))
          (λ e. left)

    item_ends :
        (prior index : ℕ) (item : ImportPlanItem) (counts : Outcome) (s : S)
        → IsKeptOrPlanned apply (item ∷ []) key (view s key) (
            view
              (execute_item lower whole encode client tenant apply prior index item counts s).1
              key)
    unfolding execute_item
    item_ends prior index item counts s =
        let read = read_routing lower whole encode client tenant item s in
        let kept = view-read_routing lower whole encode client tenant view honest item s key in
        let P = (λ (t : S). IsKeptOrPlanned apply (item ∷ []) key (view s key) (view t key)) in
        resume-ends (λ r. P r.1) read _
          (λ r _.
            resume-ends (λ r. P r.1)
              (throw_if (ltb index prior && not (is_planned r item)) _, read.1) _
              (λ _ _.
                act_unless-ends P (is_planned r item) apply (count_replayed counts)
                  (count_changed counts)
                  (replace_routing lower whole encode client tenant item r.revision) read.1
                  (inl kept) (replacement_ends item r.revision s read.1 kept))
              (λ e. inl kept))
          (λ e. inl kept)

    module _ (prior : ℕ) (progress : Option (ℕ → Act S (Unit {0})))
        (quiet : IsQuiet view progress) where
      items_end :
          (index : ℕ) (items : List ImportPlanItem) (counts : Outcome) (s : S)
          → IsKeptOrPlanned apply items key (view s key) (
              view
                (execute_items lower whole encode client tenant apply prior progress index items
                  counts s).1
                key)
      unfolding execute_items
      items_end index [] counts s = inl refl
      items_end index (item ∷ rest) counts s =
          let round =
            execute_item lower whole encode client tenant apply prior index item counts s in
          let told =
            report lower whole encode client tenant apply prior progress (suc index) round.1 in
          let first = item_ends prior index item counts s in
          let quietly =
            reported lower whole encode client tenant view honest prior progress quiet apply
              progress (suc index) round.1 key quiet in
          let reported_too : IsKeptOrPlanned apply (item ∷ []) key (view s key) (view told.1 key) =
            rw (quietly) first in
          let P = (λ (t : S). IsKeptOrPlanned apply (item ∷ rest) key (view s key) (view t key)) in
          let alone = (λ (c : Granted) (h : IsKeptOrPlanned apply (item ∷ []) key (view s key) c).
            kept_then apply item rest key (view s key) c c h (inl refl)) in
          resume-ends (λ r. P r.1) round _
            (λ after _.
              resume-ends (λ r. P r.1) told _
                (λ _ _.
                  kept_then apply item rest key (view s key) (view told.1 key) _ reported_too
                    (items_end (suc index) rest after told.1))
                (λ e. alone (view told.1 key) reported_too))
            (λ e. alone (view round.1 key) first)

      -- However an import ends, a key's grants are as they were, or, where it was applied, exactly the
      -- routes that one of the plan's items wants for this key, for a target that answers what it holds
      -- and replaces all of a key's grants or none.
      pub execute_plan_ends :
          (plan : ImportPlan) (s : S)
          → IsKeptOrPlanned apply plan.items key (view s key) (
              view
                (execute_plan lower whole encode client tenant apply prior progress plan s).1
                key)
      unfolding execute_plan
      execute_plan_ends plan s =
          let start = check_target lower whole encode client tenant apply prior progress plan s in
          let kept =
            view-check_target lower whole encode client tenant view honest prior progress quiet
              apply plan s key in
          resume-ends (λ r. IsKeptOrPlanned apply plan.items key (view s key) (view r.1 key)) start
            _ (λ _ _. rw (← kept) (items_end 0 plan.items _ start.1)) (λ e. inl kept)

-- A dry run, and whatever goes wrong in it, leaves every key granted what it was, for a client that
-- answers what it holds, and where reporting the progress changes no grants.
pub dry_run_keeps :
    {S : Type 0} (lower : Text → Text) (whole : Bool → Text → Option ℕ) (encode : Text → Text)
    (client : TargetClient S) (tenant : Text) (view : S → Text → Granted)
    (honest : IsHonest lower whole encode client tenant view) (prior : ℕ)
    (progress : Option (ℕ → Act S (Unit {0}))) (quiet : IsQuiet view progress) (plan : ImportPlan)
    (s : S) (key : Text)
    → view (execute_plan lower whole encode client tenant false prior progress plan s).1 key
      ≡ view s key
dry_run_keeps lower whole encode client tenant view honest prior progress quiet plan s key =
    elim (execute_plan_ends lower whole encode client tenant view honest false (λ h. cc) key prior
      progress quiet plan s) [ inl e ↦ e | inr (h, _) ↦ cc ]
