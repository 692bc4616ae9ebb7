-- ===== src/Policy/Imported.antt =====
-- A whole import: what the documents say is what the keys are granted.
use memeloop_token_center_mi.Policy.Main.{checkpoint_at, Inputs, progress_of, import_keys}
use memeloop_token_center_mi.Policy.Replay.{each_wanted, grant_all_other, item_keys}
use memeloop_token_center_mi.Common.{
  units, ok_inj, ℕ, ◌≡◌, sym, ap, ◌∙◌, inl, inr, Bool, true, false, not, ◌&&◌, Option, none, some,
  List, [], ◌∷◌, Text, text_eq, text_eq_sound, contains, any, map, ok, All, All-map, Any, throw_if,
  throw_unless-eq-ok, >>=-eq-ok,
}
use memeloop_token_center_mi.Policy.Build.{
  no_counts, check_counts, parse_json, build_plan, read_documents, identities_from,
  check_identities, plan_of, Documents,
}
use memeloop_token_center_mi.Policy.Plan.{
  check_mappings, Identity, ImportPlan, ImportPlanItem, Counts, items_of, item_of, sort_policies,
  key_by_hash, or_no_key,
}
use memeloop_token_center_mi.Policy.Parse.{parse_native_policy, NativePolicy, RouteMapping}
use memeloop_token_center_mi.Policy.Documents.{parse_route_inventory, parse_mapping}
use memeloop_token_center_mi.Policy.Sorting.{sort_policies-All}
use memeloop_token_center_mi.Policy.Matching.{item_of-IsItemOf, IsItemOf, is_mapped_to}
use memeloop_token_center_mi.Policy.Keys.{identities_from-IsDistinct}
use memeloop_token_center_mi.Policy.Keys.{parse_native_policy-IsDistinct}
use memeloop_token_center_mi.Policy.Distinct.{items-IsDistinct}
use memeloop_token_center_mi.Routes.Sorting.{IsDistinct}
use mathlib.Core.Path.{subst}
use memeloop_token_center_mi.Policy.Answers.{Checkpoint, load_checkpoint}
use memeloop_token_center_mi.Acts.{resume-eq-ok}
use memeloop_token_center_mi.Policy.Act.{Act}
use memeloop_token_center_mi.Policy.Execute.{TargetClient, Outcome, execute_plan}
use memeloop_token_center_mi.Policy.Honest.{Granted, wanted, IsHonest, IsQuiet}
use memeloop_token_center_mi.Policy.Refined.{execute_plan-grants}

module _ {S : Type 0} (lower : Text → Text) (whole : Bool → Text → Option ℕ)
    (is_finite : Bool → Text → Bool) (decode : List ℕ → Option Text) (before : Text → Text → Bool)
    (sha : List ℕ → Text) (encode : Text → Text) (client : TargetClient S) where
  -- what an import that returned did
  import_keys-eq-ok :
      (inputs : Inputs) (apply : Bool) (write : Option (Checkpoint → Act S (Unit {0}))) (s t : S)
      (counts : Outcome)
      → import_keys lower whole is_finite decode before sha encode client inputs apply write s
        ≡ (ok counts, t)
      → (plan : ImportPlan) × (prior : Checkpoint) × (build_plan lower whole is_finite decode before
            sha inputs.raw_policy inputs.raw_mapping inputs.raw_inventory inputs.identities
          ≡ ok (plan, inputs.requested_tenant))
        × (execute_plan lower whole encode client inputs.requested_tenant apply
              prior.completed_count
              (progress_of apply write plan)
              plan
              s
            ≡ (ok counts, t))
  unfolding import_keys
  import_keys-eq-ok inputs apply write s t counts h =
      let (built, e, h1) =
        resume-eq-ok
          (
            build_plan lower whole is_finite decode before sha inputs.raw_policy inputs.raw_mapping
                inputs.raw_inventory inputs.identities,
            s,
          )
          _ h in
      let (_, f, h2) =
        resume-eq-ok (throw_if (not (text_eq built.1 inputs.requested_tenant)) _, s) _ h1 in
      let (prior, g, h3) =
        resume-eq-ok (load_checkpoint lower whole is_finite decode inputs.checkpoint built.0, s) _
          h2 in
      let tenant =
        text_eq_sound built.1 inputs.requested_tenant
          (throw_unless-eq-ok (text_eq built.1 inputs.requested_tenant) _ f) in
      (
        built.0,
        prior,
        e ∙ ap (λ u. ok (built.0, u)) tenant,
        subst
            (λ u.
              execute_plan lower whole encode client u apply prior.completed_count
                (progress_of apply write built.0) built.0 s
              ≡ (ok counts, t))
            tenant h3,
      )

items_of-Covers :
    (known : List Identity) (mappings : List RouteMapping) (ps : List NativePolicy)
    (counts : Counts)
    → All
        (λ p. Any (λ item. IsItemOf known mappings item p) (items_of known mappings ps counts).0)
        ps
unfolding items_of
items_of-Covers known mappings [] counts = tt
items_of-Covers known mappings (p ∷ ps) counts =
    let first = item_of known mappings p counts in
    (
      inl (item_of-IsItemOf known mappings p counts),
      All-map ps (λ q h. inr h) (items_of-Covers known mappings ps first.1),
    )

module _ (lower : Text → Text) (whole : Bool → Text → Option ℕ) (is_finite : Bool → Text → Bool)
    (decode : List ℕ → Option Text) (before : Text → Text → Bool) (sha : List ℕ → Text) where
  plan_of-items :
      (digests : Text × Text × Text) (documents : Documents) (known : List Identity)
      (plan : ImportPlan)
      → plan_of lower whole is_finite decode before sha digests documents known ≡ ok plan
      → (check_identities documents.policies known ≡ ok tt)
        × ((items_of known documents.mappings (sort_policies before documents.policies) no_counts).0
            ≡ plan.items)
  unfolding plan_of
  plan_of-items digests documents known plan h =
      let planned =
        items_of known documents.mappings (sort_policies before documents.policies) no_counts in
      let (_, paired, h1) = >>=-eq-ok (check_identities documents.policies known) _ h in
      let (_, checked, h2) = >>=-eq-ok (check_mappings documents.mappings documents.routes) _ h1 in
      let (_, counted, h3) = >>=-eq-ok (check_counts documents.policies planned.1) _ h2 in
      (paired, ap (λ r. r.items) (ok_inj h3))

  read_documents-IsDistinct :
      (raw_policy raw_mapping raw_inventory : List ℕ) (documents : Documents)
      → read_documents lower whole is_finite decode before sha raw_policy raw_mapping raw_inventory
        ≡ ok documents
      → IsDistinct (map (λ (p : NativePolicy). p.key_hash) documents.policies)
  unfolding read_documents
  read_documents-IsDistinct raw_policy raw_mapping raw_inventory documents h =
      let (v, _, h1) =
        >>=-eq-ok (parse_json lower whole is_finite decode raw_policy (units "source policy")) _
          h in
      let (policies, e, h2) = >>=-eq-ok (parse_native_policy lower whole before (some v)) _ h1 in
      let (w, _, h3) =
        >>=-eq-ok (parse_json lower whole is_finite decode raw_inventory (units "route inventory"))
          _ h2 in
      let (routes, _, h4) = >>=-eq-ok (parse_route_inventory lower whole before (some w)) _ h3 in
      let (x, _, h5) =
        >>=-eq-ok (parse_json lower whole is_finite decode raw_mapping (units "reviewed mapping")) _
          h4 in
      let (parsed, _, h6) =
        >>=-eq-ok (parse_mapping lower whole before (some x) (sha raw_policy) (sha raw_inventory)) _
          h5 in
      let same : policies ≡ documents.policies = ap (λ d. d.policies) (ok_inj h6) in
      subst (λ (ps : List NativePolicy). IsDistinct (map (λ (p : NativePolicy). p.key_hash) ps))
        same (parse_native_policy-IsDistinct lower whole before (some v) policies e)

  -- A plan that is built has an item for every policy, and no two items for one key.
  pub build_plan-Covers :
      (raw_policy raw_mapping raw_inventory : List ℕ) (identities : List Identity)
      (plan : ImportPlan) (tenant : Text)
      → build_plan lower whole is_finite decode before sha raw_policy raw_mapping raw_inventory
          identities
        ≡ ok (plan, tenant)
      → (documents : Documents) × (known : List Identity) × (read_documents lower whole is_finite
            decode before sha raw_policy raw_mapping raw_inventory
          ≡ ok documents)
        × (identities_from lower whole is_finite decode [] [] identities ≡ ok known)
        × All
            (λ p. Any (λ item. IsItemOf known documents.mappings item p) plan.items)
            documents.policies
        × IsDistinct (item_keys plan.items)
  unfolding build_plan
  build_plan-Covers raw_policy raw_mapping raw_inventory identities plan tenant h =
      let (documents, e1, h1) =
        >>=-eq-ok
          (read_documents lower whole is_finite decode before sha raw_policy raw_mapping
            raw_inventory)
          _ h in
      let (known, e2, h2) =
        >>=-eq-ok (identities_from lower whole is_finite decode [] [] identities) _ h1 in
      let (planned, e3, h3) =
        >>=-eq-ok
          (plan_of lower whole is_finite decode before sha
            (sha raw_policy, sha raw_mapping, sha raw_inventory) documents known)
          _ h2 in
      let same : planned ≡ plan = ap (λ r. r.0) (ok_inj h3) in
      let (paired, items) =
        plan_of-items (sha raw_policy, sha raw_mapping, sha raw_inventory) documents known plan
          (e3 ∙ ap (λ r. ok r) same) in
      let sorted = sort_policies before documents.policies in
      (
        documents,
        known,
        e1,
        e2,
        subst
            (λ (is : List ImportPlanItem).
              All (λ p. Any (λ item. IsItemOf known documents.mappings item p) is)
                documents.policies)
            items
            (sort_policies-All before _ documents.policies
              (items_of-Covers known documents.mappings sorted no_counts)),
        subst (λ (is : List ImportPlanItem). IsDistinct (item_keys is)) items
            (items-IsDistinct lower whole is_finite decode before sha documents.policies
              documents.mappings known
              (read_documents-IsDistinct raw_policy raw_mapping raw_inventory documents e1)
              (identities_from-IsDistinct lower whole is_finite decode [] [] identities known e2).1
              paired),
      )

found_among :
    {A : Type 0} (P Q : A → Type 0) (xs : List A) → Any P xs → All Q xs → (x : A) × P x × Q x
found_among P Q [] h _ = absurd h.lower
found_among P Q (x ∷ xs) (inl p) (q, _) = (x, p, q)
found_among P Q (x ∷ xs) (inr h) (_, k) = found_among P Q xs h k

-- Writing a checkpoint changes no routing.
abbrev pub KeepsGrants :
    {S : Type 0} → (S → Text → Granted) → Option (Checkpoint → Act S (Unit {0})) → Type 0
KeepsGrants view none = Unit
KeepsGrants view (some write) =
    (c : Checkpoint) (s : _) (key : Text) → view (write c s).1 key ≡ view s key

progress_of-IsQuiet :
    {S : Type 0} (view : S → Text → Granted) (apply : Bool)
    (write : Option (Checkpoint → Act S (Unit {0}))) (plan : ImportPlan)
    → KeepsGrants view write
    → IsQuiet view (progress_of apply write plan)
unfolding progress_of
progress_of-IsQuiet view false write plan h = tt
progress_of-IsQuiet view true none plan h = tt
progress_of-IsQuiet view true (some write) plan h =
    λ completed s key. h (checkpoint_at plan completed) s key

-- The grants of a policy's key are exactly the routes that the policy's grants are mapped to, if it is
-- enabled, and none if it is not; and no route groups.
abbrev pub HoldsGrantsOf :
    List Identity → List RouteMapping → (Text → Granted) → NativePolicy → Type 0
HoldsGrantsOf known mappings held p =
    ((id : Text)
      → contains id (held (or_no_key (key_by_hash p.key_hash known))).0
        ≡ (p.enabled && any (is_mapped_to mappings id) p.grants))
    × ((held (or_no_key (key_by_hash p.key_hash known))).1 ≡ [])

holds_wanted :
    (known : List Identity) (mappings : List RouteMapping) (held : Text → Granted)
    (p : NativePolicy) (item : ImportPlanItem)
    → IsItemOf known mappings item p
    → held item.key_id ≡ wanted item
    → HoldsGrantsOf known mappings held p
holds_wanted known mappings held p item (key, ids) e =
    let same = ap held (sym key) ∙ e in
    (λ id. ap (λ g. contains id g.0) same ∙ ids id, ap (λ g. g.1) same)

module _ {S : Type 0} (lower : Text → Text) (whole : Bool → Text → Option ℕ)
    (is_finite : Bool → Text → Bool) (decode : List ℕ → Option Text) (before : Text → Text → Bool)
    (sha : List ℕ → Text) (encode : Text → Text) (client : TargetClient S)
    (view : S → Text → Granted) where
  -- An import that was applied and returned leaves every key of a policy granted exactly the routes to
  -- which the policy's grants are mapped, or none where the policy is disabled, and no route groups, and
  -- changes no key without an item in the plan that is built from the documents; for a target that answers what it holds, and where
  -- writing the checkpoint changes no grants.
  pub import_keys-HoldsGrantsOf :
      (inputs : Inputs) (write : Option (Checkpoint → Act S (Unit {0}))) (s t : S)
      (counts : Outcome)
      → IsHonest lower whole encode client inputs.requested_tenant view
      → KeepsGrants view write
      → import_keys lower whole is_finite decode before sha encode client inputs true write s
        ≡ (ok counts, t)
      → (plan : ImportPlan) × (documents : Documents) × (known : List Identity) × (build_plan lower
            whole is_finite decode before sha inputs.raw_policy inputs.raw_mapping
            inputs.raw_inventory inputs.identities
          ≡ ok (plan, inputs.requested_tenant))
        × (read_documents lower whole is_finite decode before sha inputs.raw_policy
              inputs.raw_mapping inputs.raw_inventory
            ≡ ok documents)
        × (identities_from lower whole is_finite decode [] [] inputs.identities ≡ ok known)
        × All (HoldsGrantsOf known documents.mappings (view t)) documents.policies
        × ((key : Text) → contains key (item_keys plan.items) ≡ false → view t key ≡ view s key)
  import_keys-HoldsGrantsOf inputs write s t counts honest keeps h =
      let (plan, prior, built, ran) =
        import_keys-eq-ok lower whole is_finite decode before sha encode client inputs true write s
          t counts h in
      let (documents, known, e1, e2, covers, distinct) =
        build_plan-Covers lower whole is_finite decode before sha inputs.raw_policy
          inputs.raw_mapping inputs.raw_inventory inputs.identities plan inputs.requested_tenant
          built in
      let (granted, _) =
        execute_plan-grants lower whole encode client inputs.requested_tenant view honest
          prior.completed_count (progress_of true write plan)
          (progress_of-IsQuiet view true write plan keeps) plan s t counts ran in
      let now =
        All-map plan.items (λ item e. granted item.key_id ∙ e)
          (each_wanted plan.items (view s) distinct) in
      (
        plan,
        documents,
        known,
        built,
        e1,
        e2,
        All-map documents.policies
            (λ p c.
              let (item, of_policy, e) = found_among _ _ plan.items c now in
              holds_wanted known documents.mappings (view t) p item of_policy e)
            covers,
        λ key new. granted key ∙ grant_all_other plan.items (view s) key new,
      )
