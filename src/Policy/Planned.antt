-- ===== src/Policy/Planned.antt =====
-- What a plan that was built says of the three documents: every item holds exactly the mapped routes of
-- one policy, no grant was left out, and every mapped route is the one that was reviewed.
use memeloop_token_center_mi.Policy.Sorting.{sort_policies-All, sort_policies-Any}
use mathlib.Core.Path.{subst}
use memeloop_token_center_mi.Common.{
  ℕ, ◌≡◌, refl, sym, ap, ◌∙◌, inl, inr, Bool, true, Option, some, List, [], ◌∷◌, Text, units,
  text_eq, ltb, arith, Bool-cases, Option-cases, All, All-map, Any, ok, err, ok_inj, ◌>>=◌,
  >>=-eq-ok, throw_if-eq-ok, throw_unless-eq-ok,
}
use memeloop_token_center_mi.Policy.Schema.{failure}
use memeloop_token_center_mi.Policy.Parse.{
  SourceGrant, NativePolicy, InventoryRoute, RouteMapping, grant_key,
}
use memeloop_token_center_mi.Policy.Plan.{
  Counts, Identity, ImportPlan, ImportPlanItem, sort_policies, validate_route, is_expected,
  route_by_id, mapping_by_grant, check_mappings, items_of,
}
use memeloop_token_center_mi.Policy.Build.{
  identities_from, check_identities, check_counts, no_counts, Documents, read_documents, plan_of,
  build_plan,
}
use memeloop_token_center_mi.Policy.Matching.{
  IsItemOf, IsCovered, items_of-IsItemOf, missing-items_of,
}

-- The route that a mapping names is in the inventory and has the coordinates that were reviewed.
abbrev pub IsReviewed : List InventoryRoute → RouteMapping → Type 0
IsReviewed routes m =
    (route : InventoryRoute) × (route_by_id m.expected.route_id routes ≡ some route)
    × (is_expected m.expected route ≡ true)

check_mappings-AreReviewed :
    (ms : List RouteMapping) (routes : List InventoryRoute) {u : Unit {0}}
    → check_mappings ms routes ≡ ok u
    → All (IsReviewed routes) ms
unfolding check_mappings validate_route
check_mappings-AreReviewed [] routes h = tt
check_mappings-AreReviewed (m ∷ ms) routes h =
    elim (Option-cases (route_by_id m.expected.route_id routes)) [
      | inl e ↦
          let step : check_mappings (m ∷ ms) routes
              ≡ err (failure (units "a reviewed route is absent from the inventory")) =
            rw (check_mappings, e) refl in
          let impossible : err (failure (units "a reviewed route is absent from the inventory"))
              ≡ ok tt =
            sym step ∙ h in
          cc
      | inr (route, e) ↦
          let step : check_mappings (m ∷ ms) routes
              ≡ (validate_route m route >>= λ _. check_mappings ms routes) =
            rw (check_mappings, e) refl in
          let (_, valid, rest) =
            >>=-eq-ok (validate_route m route) (λ _. check_mappings ms routes) (sym step ∙ h) in
          (
            (route, e, throw_unless-eq-ok (is_expected m.expected route) _ valid),
            check_mappings-AreReviewed ms routes rest,
          )
    ]

mapping_among :
    (P : RouteMapping → Type 0) (key : Text) (ms : List RouteMapping) (m : RouteMapping)
    → All P ms
    → mapping_by_grant key ms ≡ some m
    → P m
unfolding mapping_by_grant
mapping_among P key [] m h e = cc
mapping_among P key (n ∷ ms) m (p, h) e = elim (Bool-cases (text_eq key (grant_key n.source))) [
  | inl here ↦
      let found : ◌≡◌ {A = Option RouteMapping} (some n) (some m) =
        sym (rw (mapping_by_grant, here) refl) ∙ e in
      let same : n ≡ m = cc in subst P same p
  | inr there ↦ mapping_among P key ms m h (sym (rw (mapping_by_grant, there) refl) ∙ e)
]

-- The grant is mapped, to a route that is as it was reviewed.
abbrev pub IsReviewedGrant : List RouteMapping → List InventoryRoute → SourceGrant → Type 0
IsReviewedGrant mappings routes g =
    (m : RouteMapping) × (mapping_by_grant (grant_key g) mappings ≡ some m) × IsReviewed routes m

grants_reviewed :
    (mappings : List RouteMapping) (routes : List InventoryRoute) (policies : List NativePolicy)
    → All (IsReviewed routes) mappings
    → All (IsCovered mappings) policies
    → All
        (λ (p : NativePolicy). p.enabled ≡ true → All (IsReviewedGrant mappings routes) p.grants)
        policies
grants_reviewed mappings routes policies reviewed covered =
    All-map policies
      (λ p c enabled.
        All-map p.grants
          (λ g (m, e).
            (m, e, mapping_among (IsReviewed routes) (grant_key g) mappings m reviewed e))
          (c enabled))
      covered

none_missing :
    (policies : List NativePolicy) (counts : Counts) {u : Unit {0}}
    → check_counts policies counts ≡ ok u
    → counts.missing ≡ 0
unfolding check_counts
none_missing policies counts h = let e = throw_if-eq-ok (ltb 0 counts.missing) _ h in ground arith

-- Every item is that of one policy, and every grant of an enabled policy is mapped to a reviewed route.
abbrev pub IsPlanOf : List NativePolicy → List RouteMapping → List Identity → ImportPlan → Type 0
IsPlanOf policies mappings known plan =
    All (λ item. Any (IsItemOf known mappings item) policies) plan.items
    × All
        (λ (p : NativePolicy).
          p.enabled ≡ true → All (IsReviewedGrant mappings plan.routes) p.grants)
        policies

module _ (lower : Text → Text) (whole : Bool → Text → Option ℕ) (is_finite : Bool → Text → Bool)
    (decode : List ℕ → Option Text) (before : Text → Text → Bool) (sha : List ℕ → Text) where
  -- A plan is that of the policies, the mappings and the routes read.
  plan_of-IsPlanOf :
      (digests : Text × Text × Text) (documents : Documents) (known : List Identity)
      (plan : ImportPlan)
      → plan_of lower whole is_finite decode before sha digests documents known ≡ ok plan
      → (plan.routes ≡ documents.routes)
        × (check_identities documents.policies known ≡ ok tt)
        × IsPlanOf documents.policies documents.mappings known plan
  unfolding plan_of
  plan_of-IsPlanOf digests documents known plan h =
      let policies = documents.policies in
      let mappings = documents.mappings in
      let routes = documents.routes in
      let sorted = sort_policies before policies in
      let planned = items_of known mappings sorted no_counts in
      let (_, paired, h1) = >>=-eq-ok (check_identities policies known) _ h in
      let (_, checked, h2) = >>=-eq-ok (check_mappings mappings routes) _ h1 in
      let (_, counted, h3) = >>=-eq-ok (check_counts policies planned.1) _ h2 in
      let built = ok_inj h3 in
      let routes_eq : routes ≡ plan.routes = ap (λ r. r.routes) built in
      let items_eq : planned.0 ≡ plan.items = ap (λ r. r.items) built in
      (
        sym routes_eq,
        paired,
        (
          subst
              (λ (items : List ImportPlanItem).
                All (λ item. Any (IsItemOf known mappings item) policies) items)
              items_eq
              (All-map planned.0
                (λ item. sort_policies-Any before (IsItemOf known mappings item) policies)
                (items_of-IsItemOf known mappings sorted no_counts)),
          subst
              (λ (rs : List InventoryRoute).
                All
                  (λ (p : NativePolicy).
                    p.enabled ≡ true → All (IsReviewedGrant mappings rs) p.grants)
                  policies)
              routes_eq
              (grants_reviewed mappings routes policies
                (check_mappings-AreReviewed mappings routes checked)
                (sort_policies-All before (IsCovered mappings) policies
                  (missing-items_of known mappings sorted no_counts
                    (none_missing policies planned.1 counted)).1)),
        ),
      )

  -- A plan that is built holds, for the documents read and the identities known, in every item exactly the
  -- routes to which the grants of one policy are mapped, if it is enabled, and no route if it is not;
  -- and every grant of an enabled policy is mapped to a route of the inventory that has the reviewed
  -- coordinates.
  pub build_plan-IsPlanOf :
      (raw_policy raw_mapping raw_inventory : List ℕ) (identities : List Identity)
      (plan : ImportPlan) (tenant : Text)
      → build_plan lower whole is_finite decode before sha raw_policy raw_mapping raw_inventory
          identities
        ≡ ok (plan, tenant)
      → (documents : Documents) × (known : List Identity) × (read_documents lower whole is_finite
            decode before sha raw_policy raw_mapping raw_inventory
          ≡ ok documents)
        × (identities_from lower whole is_finite decode [] [] identities ≡ ok known)
        × (check_identities documents.policies known ≡ ok tt)
        × (plan.routes ≡ documents.routes)
        × IsPlanOf documents.policies documents.mappings known plan
  unfolding build_plan
  build_plan-IsPlanOf raw_policy raw_mapping raw_inventory identities plan tenant h =
      let (documents, e1, h1) =
        >>=-eq-ok
          (read_documents lower whole is_finite decode before sha raw_policy raw_mapping
            raw_inventory)
          _ h in
      let (known, e2, h2) =
        >>=-eq-ok (identities_from lower whole is_finite decode [] [] identities) _ h1 in
      let (planned, e3, h3) =
        >>=-eq-ok
          (plan_of lower whole is_finite decode before sha
            (sha raw_policy, sha raw_mapping, sha raw_inventory) documents known)
          _ h2 in
      let same : planned ≡ plan = ap (λ r. r.0) (ok_inj h3) in
      let (routes, paired, good) =
        plan_of-IsPlanOf (sha raw_policy, sha raw_mapping, sha raw_inventory) documents known plan
          (e3 ∙ ap (λ r. ok r) same) in
      (documents, known, e1, e2, paired, routes, good)
