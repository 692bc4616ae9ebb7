-- ===== src/Routes/Eligible.antt =====
-- When an account can serve a coordinate: `authCanServe` and the accounts it selects.
use memeloop_token_center_mi.Routes.Serve.{
  keep_selected, Coordinate, auth_can_serve, requested_model, group_fits, prefix_fits, Selected,
  select_auths,
}
use memeloop_token_center_mi.Common.{
  ◌≡◌, refl, ap, ◌⊎◌, inl, inr, Bool, true, false, ◌||◌, Option, none, some, List, [], ◌∷◌, Text,
  text_eq, text_eq_sound, contains, All, Any, All-map, arith, Bool-cases, any,
}
use memeloop_token_center_mi.Routes.Wildcard.{wildcard, resolve_alias}
use memeloop_token_center_mi.Routes.Config.{ParsedConfig}
use memeloop_token_center_mi.Routes.Auths.{ManagedAuth}
use memeloop_token_center_mi.Routes.Glob.{Matches, wildcard-Matches}

abbrev pub Among : Text → List Text → Type 0
Among t ts = Any (λ u. t ≡ u) ts

pub contains-Among : (t : Text) (ts : List Text) → contains t ts ≡ true → Among t ts
contains-Among t [] h = cc
contains-Among t (u ∷ ts) h = elim (Bool-cases (text_eq t u)) [
  | inl now ↦ inl (text_eq_sound t u now)
  | inr later ↦ inr (contains-Among t ts (ground (arith, h, later)))
]

-- The group that a coordinate asks for is one of the account's.
abbrev pub InGroup : Option Text → List Text → Type 0
InGroup none groups = Unit
InGroup (some g) groups = Among g groups

-- The prefix that a coordinate asks for is the account's; without one, the account has none where
-- the configuration forces prefixes.
abbrev pub HasPrefix : Option Text → Bool → Option Text → Type 0
HasPrefix none force own = (force ≡ true) → own ≡ none
HasPrefix (some p) force own = own ≡ some p

group_fits-InGroup :
    (g : Option Text) (groups : List Text) → group_fits g groups ≡ true → InGroup g groups
group_fits-InGroup none groups h = tt
group_fits-InGroup (some g) groups h = contains-Among g groups h

prefix_fits-HasPrefix :
    (p : Option Text) (force : Bool) (own : Option Text)
    → prefix_fits p force own ≡ true
    → HasPrefix p force own
prefix_fits-HasPrefix none force none h = λ _. refl
prefix_fits-HasPrefix none force (some q) h = λ forced. ground (arith, h, forced)
prefix_fits-HasPrefix (some p) force none h = cc
prefix_fits-HasPrefix (some p) force (some q) h = ap some (text_eq_sound q p h)

module _ (lower : Text → Text) where
  excluded_apart :
      (upstream : Text) (excluded : List Text)
      → any (λ pattern'. wildcard lower pattern' upstream) excluded ≡ false
      → All (λ pattern'. ¬ Matches (lower pattern') (lower upstream)) excluded
  excluded_apart upstream [] h = tt
  excluded_apart upstream (e ∷ excluded) h = (
    λ m. ground (arith, h, wildcard-Matches lower e upstream m),
    excluded_apart upstream excluded (ground (arith, h)),
  )

  serve_tests :
      (auth : ManagedAuth) (config : ParsedConfig) (source : Coordinate) (upstream : Text)
      → auth_can_serve lower auth config source ≡ some upstream
      → (upstream ≡ resolve_alias lower source.model auth.aliases)
        × (group_fits source.group auth.groups ≡ true)
        × (prefix_fits source.upstream_prefix config.force_model_prefix auth.prefix ≡ true)
        × (any (λ pattern'. wildcard lower pattern' upstream) auth.excluded ≡ false)
        × ((contains (lower (requested_model source)) auth.registered_models
              || contains (lower upstream) auth.registered_models)
            ≡ true)
  unfolding auth_can_serve
  serve_tests auth config source upstream h = (
    ground (arith, h),
    ground (arith, h),
    ground (arith, h),
    ground (arith, h),
    ground (arith, h),
  )

  -- What makes an account eligible: its group, its prefix, no excluded model, and a registered
  -- model, by the name asked for or by the upstream name that the aliases give.
  abbrev pub IsEligible : ManagedAuth → ParsedConfig → Coordinate → Text → Type 0
  IsEligible auth config source upstream =
      (upstream ≡ resolve_alias lower source.model auth.aliases)
      × InGroup source.group auth.groups
      × HasPrefix source.upstream_prefix config.force_model_prefix auth.prefix
      × All (λ pattern'. ¬ Matches (lower pattern') (lower upstream)) auth.excluded
      × (Among (lower (requested_model source)) auth.registered_models
          ⊎ Among (lower upstream) auth.registered_models)

  either : (a b : Bool) {A B : Type 0} → (a ≡ true → A) → (b ≡ true → B) → (a || b) ≡ true → A ⊎ B
  either true b f g h = inl (f refl)
  either false b f g h = inr (g h)

  -- An account that can serve a coordinate has its group and its prefix, serves it by the upstream
  -- model that its aliases give, has no excluded pattern that matches this model as a glob, and has
  -- the model registered by the requested name or the upstream one.
  pub auth_can_serve-IsEligible :
      (auth : ManagedAuth) (config : ParsedConfig) (source : Coordinate) (upstream : Text)
      → auth_can_serve lower auth config source ≡ some upstream
      → IsEligible auth config source upstream
  auth_can_serve-IsEligible auth config source upstream h =
      let (name, group, prefix, excluded, models) = serve_tests auth config source upstream h in
      (
        name,
        group_fits-InGroup source.group auth.groups group,
        prefix_fits-HasPrefix source.upstream_prefix config.force_model_prefix auth.prefix prefix,
        excluded_apart upstream auth.excluded excluded,
        either (contains (lower (requested_model source)) auth.registered_models)
            (contains (lower upstream) auth.registered_models)
            (contains-Among (lower (requested_model source)) auth.registered_models)
            (contains-Among (lower upstream) auth.registered_models) models,
      )

  -- A selected account is one of the accounts, and can serve by the upstream model noted.
  abbrev pub IsSelected : List ManagedAuth → ParsedConfig → Coordinate → Selected → Type 0
  IsSelected auths config source s =
      (auth_can_serve lower s.auth config source ≡ some s.upstream_model)
      × Any (λ a. s.auth ≡ a) auths

  keep_selected-IsSelected :
      (auth : ManagedAuth) (auths : List ManagedAuth) (config : ParsedConfig) (source : Coordinate)
      (o : Option Text) (rest : List Selected)
      → auth_can_serve lower auth config source ≡ o
      → All (IsSelected auths config source) rest
      → All (IsSelected (auth ∷ auths) config source) (keep_selected auth o rest)
  keep_selected-IsSelected auth auths config source none rest e h =
      All-map rest (λ s (p, q). (p, inr q)) h
  keep_selected-IsSelected auth auths config source (some u) rest e h =
      ((e, inl refl), All-map rest (λ s (p, q). (p, inr q)) h)

  pub select_auths-IsSelected :
      (auths : List ManagedAuth) (config : ParsedConfig) (source : Coordinate)
      → All (IsSelected auths config source) (select_auths lower auths config source)
  unfolding select_auths
  select_auths-IsSelected [] config source = tt
  select_auths-IsSelected (auth ∷ auths) config source =
      keep_selected-IsSelected auth auths config source (auth_can_serve lower auth config source)
        (select_auths lower auths config source) refl (select_auths-IsSelected auths config source)

  -- An account that can serve is selected.
  abbrev pub IsTaken : ParsedConfig → Coordinate → List Selected → ManagedAuth → Type 0
  IsTaken config source selected a =
      (u : Text)
      → auth_can_serve lower a config source ≡ some u
      → Any (λ (s : Selected). (s.auth ≡ a) × (s.upstream_model ≡ u)) selected

  keep_selected-IsTaken :
      (auth : ManagedAuth) (auths : List ManagedAuth) (config : ParsedConfig) (source : Coordinate)
      (o : Option Text) (rest : List Selected)
      → auth_can_serve lower auth config source ≡ o
      → All (IsTaken config source rest) auths
      → All (IsTaken config source (keep_selected auth o rest)) (auth ∷ auths)
  keep_selected-IsTaken auth auths config source none rest e h = (λ u k. cc, h)
  keep_selected-IsTaken auth auths config source (some v) rest e h =
      (λ u k. inl (refl, ground (arith, e, k)), All-map auths (λ a t u k. inr (t u k)) h)

  pub select_auths-IsTaken :
      (auths : List ManagedAuth) (config : ParsedConfig) (source : Coordinate)
      → All (IsTaken config source (select_auths lower auths config source)) auths
  unfolding select_auths
  select_auths-IsTaken [] config source = tt
  select_auths-IsTaken (auth ∷ auths) config source =
      keep_selected-IsTaken auth auths config source (auth_can_serve lower auth config source)
        (select_auths lower auths config source) refl (select_auths-IsTaken auths config source)
