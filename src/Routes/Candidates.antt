-- ===== src/Routes/Candidates.antt =====
-- The candidates of one route: the stable identities of exactly the accounts that can serve it.
use memeloop_token_center_mi.Common.{
  ◌>>◌, ◌<◌, ◌≡◌, refl, sym, ap, ◌∙◌, inl, inr, Bool, true, false, not, ◌||◌, ◌==◌, some, List, [],
  ◌∷◌, Text, text_eq_sound, length, All, Any, All-map, Any-map, arith, any, map, ok, throw_if,
  ==_iff,
}
use memeloop_token_center_mi.Routes.Schema.{RouteFailure}
use memeloop_token_center_mi.Routes.Strings.{distinct, distinct_from}
use memeloop_token_center_mi.Routes.Config.{ParsedConfig}
use memeloop_token_center_mi.Routes.Auths.{ManagedAuth}
use memeloop_token_center_mi.Routes.Serve.{
  Coordinate, RouteModel, auth_can_serve, Selected, is_stable_id, candidate_ids, route_model,
}
use memeloop_token_center_mi.Routes.Sorting.{
  sort_by-All, sort_by-Any, length-sort_by, IsDistinct, distinct_from_seen,
  length-distinct-IsDistinct,
}
use memeloop_token_center_mi.Routes.Eligible.{IsSelected, IsTaken}

two_guards :
    {A : Type 0} (one full bad : Bool) (e f : RouteFailure) (a r : A)
    → (throw_if (not one) e >> (throw_if (not full || bad) f >> ok a)) ≡ ok r
    → (one ≡ true) × (full ≡ true) × (bad ≡ false) × (r ≡ a)
two_guards false full bad e f a r h = cc
two_guards true false bad e f a r h = cc
two_guards true true true e f a r h = cc
two_guards true true false e f a r h = (refl, refl, refl, cc)

module _ (lower stable_id : Text → Text) where
  -- A route has candidates, its candidates are distinct stable identities, each that of an account
  -- that can serve the route by the route's upstream model, and every account that can serve the
  -- route can do so by this model only, and is among the candidates.
  pub IsRoute : List ManagedAuth → ParsedConfig → RouteModel → Type 0
  IsRoute auths config r =
      (0 < length r.candidates)
      × IsDistinct r.candidates
      × All (λ i. is_stable_id i ≡ true) r.candidates
      × All
          (λ i.
            Any
              (λ (a : ManagedAuth).
                (i ≡ stable_id a.relative_path)
                × (auth_can_serve lower a config r.source ≡ some r.upstream_model))
              auths)
          r.candidates
      × All
          (λ (a : ManagedAuth).
            (u : Text)
            → auth_can_serve lower a config r.source ≡ some u
            → (u ≡ r.upstream_model) × Any (λ i. i ≡ stable_id a.relative_path) r.candidates)
          auths

  one_model :
      (u : Text) (us : List Text)
      → (length (distinct (u ∷ us)) == 1) ≡ true
      → All (λ v. v ≡ u) (u ∷ us)
  unfolding distinct_from
  one_model u us h = (
    refl,
    All-map us (λ v k. text_eq_sound v u (ground (arith, k)))
        (distinct_from_seen (u ∷ []) us (ground (arith, h))),
  )

  pub route_steps :
      (source : Coordinate) (first : Selected) (rest : List Selected) (r : RouteModel)
      → route_model lower stable_id source first rest ≡ ok r
      → ((length (distinct (map (λ (s : Selected). s.upstream_model) (first ∷ rest))) == 1) ≡ true)
        × ((length (distinct (candidate_ids lower stable_id (first ∷ rest)))
              == length (candidate_ids lower stable_id (first ∷ rest)))
            ≡ true)
        × (any (λ i. not (is_stable_id i)) (candidate_ids lower stable_id (first ∷ rest)) ≡ false)
        × (r ≡ record {
          source = source;
          upstream_model = first.upstream_model;
          candidates = candidate_ids lower stable_id (first ∷ rest);
        })
  unfolding route_model
  route_steps source first rest r h =
      two_guards (length (distinct (map (λ (s : Selected). s.upstream_model) (first ∷ rest))) == 1)
        (length (distinct (candidate_ids lower stable_id (first ∷ rest)))
          == length (candidate_ids lower stable_id (first ∷ rest)))
        (any (λ i. not (is_stable_id i)) (candidate_ids lower stable_id (first ∷ rest))) _ _ _ r h

  no_bad_ids :
      (ids : List Text)
      → any (λ i. not (is_stable_id i)) ids ≡ false
      → All (λ i. is_stable_id i ≡ true) ids
  no_bad_ids [] h = tt
  no_bad_ids (i ∷ ids) h = (ground (arith, h), no_bad_ids ids (ground (arith, h)))

  -- Each candidate is the identity of an account selected, which serves by the one upstream model.
  ids_come :
      (auths : List ManagedAuth) (config : ParsedConfig) (source : Coordinate) (model : Text)
      (selected : List Selected)
      → All (IsSelected lower auths config source) selected
      → All (λ v. v ≡ model) (map (λ (s : Selected). s.upstream_model) selected)
      → All
          (λ i.
            Any
              (λ (a : ManagedAuth).
                (i ≡ stable_id a.relative_path)
                × (auth_can_serve lower a config source ≡ some model))
              auths)
          (map (λ (s : Selected). stable_id s.auth.relative_path) selected)
  ids_come auths config source model [] h k = tt
  ids_come auths config source model (s ∷ selected) ((serves, among), h) (e, k) = (
    Any-map auths
        (λ a same. (
          ap (λ (x : ManagedAuth). stable_id x.relative_path) same,
          ap (λ x. auth_can_serve lower x config source) (sym same) ∙ serves ∙ ap some e,
        ))
        among,
    ids_come auths config source model selected h k,
  )

  -- An account selected has its identity among the candidates, and the one upstream model.
  ids_cover :
      (a : ManagedAuth) (u model : Text) (selected : List Selected)
      → Any (λ (s : Selected). (s.auth ≡ a) × (s.upstream_model ≡ u)) selected
      → All (λ v. v ≡ model) (map (λ (s : Selected). s.upstream_model) selected)
      → (u ≡ model)
        × Any
            (λ i. i ≡ stable_id a.relative_path)
            (map (λ (s : Selected). stable_id s.auth.relative_path) selected)
  ids_cover a u model [] h k = absurd h.lower
  ids_cover a u model (s ∷ selected) (inl (same, e)) (f, k) =
      (sym e ∙ f, inl (ap (λ (x : ManagedAuth). stable_id x.relative_path) same))
  ids_cover a u model (s ∷ selected) (inr h) (f, k) =
      let (g, m) = ids_cover a u model selected h k in (g, inr m)

  pub selected-IsRoute :
      (auths : List ManagedAuth) (config : ParsedConfig) (source : Coordinate) (first : Selected)
      (rest : List Selected) (r : RouteModel)
      → All (IsSelected lower auths config source) (first ∷ rest)
      → All (IsTaken lower config source (first ∷ rest)) auths
      → route_model lower stable_id source first rest ≡ ok r
      → IsRoute auths config r
  unfolding IsRoute
  selected-IsRoute auths config source first rest r h k e =
      let (one, full, good, is) = route_steps source first rest r e in
      let models =
        one_model first.upstream_model (map (λ (s : Selected). s.upstream_model) rest) one in
      rw is (
        omega (
          arith,
          length-sort_by (λ t. t)
              (map (λ (s : Selected). stable_id s.auth.relative_path) (first ∷ rest)),
        ),
        length-distinct-IsDistinct (candidate_ids lower stable_id (first ∷ rest))
            ((==_iff _ _).0 full),
        no_bad_ids (candidate_ids lower stable_id (first ∷ rest)) good,
        sort_by-All (λ t. t) _ _
            (ids_come auths config source first.upstream_model (first ∷ rest) h models),
        All-map auths
            (λ a taken u serves.
              let (g, m) =
                ids_cover a u first.upstream_model (first ∷ rest) (taken u serves) models in
              (g, sort_by-Any (λ t. t) _ _ m))
            k,
      )
