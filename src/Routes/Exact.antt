-- ===== src/Routes/Exact.antt =====
-- What the inspection of the routes returns: exact routes, no two of them for one coordinate.
use memeloop_token_center_mi.Routes.Candidates.{IsRoute, route_steps, selected-IsRoute}
use memeloop_token_center_mi.Routes.Sorting.{
  unseen_split, sort_by-IsDistinct, sort_by-All, IsDistinct,
}
use memeloop_token_center_mi.Common.{
  ok_inj, ℕ, ◌≡◌, ap, ◌∙◌, Bool, true, false, not, ◌||◌, ◌==◌, Option, List, [], ◌∷◌, Text,
  contains, length, All, map, ok, throw_if, throw_if-eq-ok, >>=-eq-ok, ltb,
}
use mathlib.Core.Path.{subst}
use memeloop_token_center_mi.Routes.Auths.{
  Snapshot, ManagedAuth, AuthInput, SnapshotEntry, inspect_auths, snapshot_models,
}
use memeloop_token_center_mi.Json.Parser.{Value}
use memeloop_token_center_mi.Routes.Schema.{Checked}
use memeloop_token_center_mi.Routes.Regexp.{max_models}
use memeloop_token_center_mi.Routes.Config.{ParsedConfig, config_inspection}
use memeloop_token_center_mi.Routes.Serve.{
  Coordinate, RouteModel, coordinate, coordinate_key, Selected, select_auths, route_model,
  add_route, routes_from, inspect_route_models,
}
use memeloop_token_center_mi.Routes.Eligible.{
  IsSelected, IsTaken, select_auths-IsSelected, select_auths-IsTaken,
}

module _ (lower stable_id : Text → Text) where
  abbrev pub route_key : RouteModel → Text
  route_key r = coordinate_key r.source

  -- The routes are exact, no key was seen before, and no key stands twice.
  abbrev AreRoutes : List ManagedAuth → ParsedConfig → List Text → List RouteModel → Type 0
  AreRoutes auths config seen rs =
      All (IsRoute lower stable_id auths config) rs
      × All (λ r. contains (route_key r) seen ≡ false) rs
      × IsDistinct (map route_key rs)

  forget :
      (auths : List ManagedAuth) (config : ParsedConfig) (k : Text) (seen : List Text)
      (rs : List RouteModel)
      → AreRoutes auths config (k ∷ seen) rs
      → AreRoutes auths config seen rs
  forget auths config k seen rs (exact, fresh, distinct') =
      (exact, (unseen_split route_key k seen rs fresh).1, distinct')

  add_route_step :
      (auths : List ManagedAuth) (config : ParsedConfig) (k : Text) (seen : List Text)
      (r : RouteModel) (ts : List RouteModel)
      → contains k seen ≡ false
      → IsRoute lower stable_id auths config r
      → route_key r ≡ k
      → AreRoutes auths config (k ∷ seen) ts
      → AreRoutes auths config seen (r ∷ ts)
  add_route_step auths config k seen r ts new exact is (all_exact, fresh, distinct') = (
    (exact, all_exact),
    (
      ap (λ x. contains x seen) is ∙ new,
      (forget auths config k seen ts (all_exact, fresh, distinct')).1,
    ),
    (
      ap (λ x. contains x (map route_key ts)) is ∙ (unseen_split route_key k seen ts fresh).0,
      distinct',
    ),
  )

  add_route-AreRoutes :
      (allow : Bool) (auths : List ManagedAuth) (config : ParsedConfig) (source : Coordinate)
      (seen : List Text) (selected : List Selected) (more : Checked (List RouteModel))
      (rs : List RouteModel)
      → contains (coordinate_key source) seen ≡ false
      → All (IsSelected lower auths config source) selected
      → All (IsTaken lower config source selected) auths
      → ((ts : List RouteModel)
          → more ≡ ok ts
          → AreRoutes auths config (coordinate_key source ∷ seen) ts)
      → add_route lower stable_id allow source selected more ≡ ok rs
      → AreRoutes auths config seen rs
  unfolding add_route
  add_route-AreRoutes true auths config source seen [] more rs new h k rec e =
      forget auths config (coordinate_key source) seen rs (rec rs e)
  add_route-AreRoutes false auths config source seen [] more rs new h k rec e = cc
  add_route-AreRoutes allow auths config source seen (first ∷ rest) more rs new h k rec e =
      let (r, made, e) = >>=-eq-ok (route_model lower stable_id source first rest) _ e in
      let (ts, others, e) = >>=-eq-ok more _ e in
      let is = (route_steps lower stable_id source first rest r made).3 in
      subst (AreRoutes auths config seen) (ok_inj e) (
        add_route_step auths config (coordinate_key source) seen r ts new
          (selected-IsRoute lower stable_id auths config source first rest r h k made)
          (ap route_key is) (rec ts others))

  routes_from-AreRoutes :
      (allow : Bool) (config : ParsedConfig) (auths : List ManagedAuth) (seen : List Text)
      (raws : List Coordinate) (rs : List RouteModel)
      → routes_from lower stable_id allow config auths seen raws ≡ ok rs
      → AreRoutes auths config seen rs
  unfolding routes_from
  routes_from-AreRoutes allow config auths seen [] rs e =
      subst (AreRoutes auths config seen) (ok_inj e) ((tt, tt, tt))
  routes_from-AreRoutes allow config auths seen (raw ∷ raws) rs e =
      let (source, _, e) = >>=-eq-ok (coordinate lower raw) _ e in
      let (_, new, e) = >>=-eq-ok (throw_if (contains (coordinate_key source) seen) _) _ e in
      add_route-AreRoutes allow auths config source seen (select_auths lower auths config source) _
        rs (throw_if-eq-ok _ _ new) (select_auths-IsSelected lower auths config source)
        (select_auths-IsTaken lower auths config source)
        (λ ts. routes_from-AreRoutes allow config auths (coordinate_key source ∷ seen) raws ts) e

  -- When the inspection returns, the configuration was read and the accounts were inspected, each
  -- returned route is exact for them, and no two routes have the same key.
  pub inspect_route_models-IsRoute :
      (config_bytes : ℕ) (document : Option Value) (inputs : List AuthInput)
      (snapshot : List SnapshotEntry) (requested : List Coordinate) (key_bytes : ℕ) (allow : Bool)
      (rs : List RouteModel)
      → inspect_route_models lower stable_id config_bytes document inputs snapshot requested
          key_bytes allow
        ≡ ok rs
      → (config : ParsedConfig) × (models : Snapshot) × (auths : List ManagedAuth)
        × (config_inspection lower config_bytes document ≡ ok config)
        × (snapshot_models lower snapshot ≡ ok models)
        × (inspect_auths lower inputs models config ≡ ok auths)
        × All (IsRoute lower stable_id auths config) rs
        × IsDistinct (map route_key rs)
  unfolding inspect_route_models
  inspect_route_models-IsRoute config_bytes document inputs snapshot requested key_bytes allow rs
        e =
      let (_, _, e) = >>=-eq-ok (throw_if (not (key_bytes == 32)) _) _ e in
      let (config, is_config, e) = >>=-eq-ok (config_inspection lower config_bytes document) _ e in
      let (models, is_models, e) = >>=-eq-ok (snapshot_models lower snapshot) _ e in
      let (auths, is_auths, e) = >>=-eq-ok (inspect_auths lower inputs models config) _ e in
      let (_, _, e) =
        >>=-eq-ok (throw_if (length requested == 0 || ltb max_models (length requested)) _) _ e in
      let (results, are, e) =
        >>=-eq-ok (routes_from lower stable_id allow config auths [] requested) _ e in
      let (exact, _, distinct') =
        routes_from-AreRoutes allow config auths [] requested results are in
      (
        config,
        models,
        auths,
        is_config,
        is_models,
        is_auths,
        subst (All (IsRoute lower stable_id auths config)) (ok_inj e)
            (sort_by-All route_key _ results exact),
        subst (λ rs. IsDistinct (map route_key rs)) (ok_inj e)
            (sort_by-IsDistinct route_key route_key results distinct'),
      )
