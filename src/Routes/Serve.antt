-- ===== src/Routes/Serve.antt =====
-- `coordinate`, `authCanServe` and `inspectManagedCodexRouteModels`. The HMAC that names an account
-- is the parameter `stable_id`, of the account's path under the identity key.
use memeloop_token_center_mi.Common.{
  ℕ, Bool, true, false, ◌&&◌, ◌||◌, not, Option, none, some, String, List, [], ◌∷◌, ◌++◌, Text,
  units, text_eq, ltb, leb, ◌==◌, if◌then◌else◌, any, all, length, contains, ok, err, throw_if,
  ◌>>=◌, ◌>>◌, map,
}
use memeloop_token_center_mi.Json.Parser.{Value, null, str, arr, nil, cons}
use memeloop_token_center_mi.Json.Print.{print}
use memeloop_token_center_mi.Routes.Strings.{starts_with, sort_by, distinct}
use memeloop_token_center_mi.Routes.Schema.{failure, Checked, text}
use memeloop_token_center_mi.Routes.Wildcard.{wildcard, resolve_alias}
use memeloop_token_center_mi.Routes.Regexp.{max_models}
use memeloop_token_center_mi.Routes.Config.{ParsedConfig, config_inspection}
use memeloop_token_center_mi.Routes.Auths.{
  SnapshotEntry, AuthInput, ManagedAuth, snapshot_models, inspect_auths,
}

pub record Coordinate : Type 0 where
  pub provider : Text
  pub model : Text
  pub group : Option Text
  pub upstream_prefix : Option Text
  pub protocol : Text

pub record RouteModel : Type 0 where
  pub source : Coordinate
  pub upstream_model : Text
  pub candidates : List Text

abbrev optional_value : Option Text → Value
optional_value none = null
optional_value (some s) = str s

-- `JSON.stringify` of the five fields; the printer escapes as it does, for texts without control
-- characters, which `coordinate` refuses
unfoldable pub coordinate_key : Coordinate → Text
coordinate_key c =
    print
      (arr (
        cons (str c.provider) (
          cons (str c.model) (
            cons (optional_value c.group)
              (cons (optional_value c.upstream_prefix) (cons (str c.protocol) nil))))))
      []

abbrev optional_text : Option Text → String → Checked (Option Text)
optional_text none label = ok none
optional_text (some s) label = text s label >>= λ t. ok (some t)

abbrev pub same_text : Option Text → Option Text → Bool
same_text none none = true
same_text (some s) (some t) = text_eq s t
same_text _ _ = false

abbrev pub is_given : Option Text → Bool
is_given none = false
is_given (some _) = true

-- an account chosen for a route, with what the route's model is called there
pub record Selected : Type 0 where
  pub auth : ManagedAuth
  pub upstream_model : Text

abbrev pub group_fits : Option Text → List Text → Bool
group_fits none groups = true
group_fits (some g) groups = contains g groups

abbrev pub prefix_fits : Option Text → Bool → Option Text → Bool
prefix_fits none force own = not (force && is_given own)
prefix_fits (some p) force own = same_text own (some p)

abbrev pub requested_model : Coordinate → Text
requested_model source = elim source.upstream_prefix [
  | none ↦ source.model
  | some p ↦ p ++ b'/' ∷ source.model
]

abbrev is_hex : ℕ → Bool
is_hex c = (leb b'0' c && leb c b'9') || (leb b'a' c && leb c b'f')

-- STABLE_ID
abbrev pub is_stable_id : Text → Bool
is_stable_id s = length s == 64 && all is_hex s

abbrev pub keep_selected : ManagedAuth → Option Text → List Selected → List Selected
keep_selected auth none rest = rest
keep_selected auth (some upstream) rest = record { auth = auth; upstream_model = upstream } ∷ rest

module _ (lower : Text → Text) where
  abbrev lower_group : Option Text → Option Text
  lower_group none = none
  lower_group (some g) = some (lower g)

  abbrev is_custom : Option Text → Bool
  is_custom none = true
  is_custom (some g) = starts_with (units "classify:") g

  unfoldable pub coordinate : Coordinate → Checked Coordinate
  coordinate value = do
    throw_if
        (not (text_eq value.provider (units "codex") && text_eq value.protocol (units "openai")))
        (failure "managed Codex route is not an exact Codex OpenAI source coordinate")
    model ← text value.model "managed Codex route model"
    group ← optional_text value.group "managed Codex route group"
    throw_if (not (is_custom (lower_group group)))
        (failure "managed Codex route uses an unsupported non-custom credential group")
    prefix ← optional_text value.upstream_prefix "managed Codex route upstream prefix"
    throw_if (any (λ c. c == b'/') model)
        (failure "managed Codex route model must be canonical rather than prefixed")
    ok (record {
      provider = units "codex";
      model = model;
      group = lower_group group;
      upstream_prefix = prefix;
      protocol = units "openai";
    })

  unfoldable pub auth_can_serve : ManagedAuth → ParsedConfig → Coordinate → Option Text
  auth_can_serve auth config source =
      let upstream = resolve_alias lower source.model auth.aliases in
      if not (group_fits source.group auth.groups)
      then none
      else if not (prefix_fits source.upstream_prefix config.force_model_prefix auth.prefix)
      then none
      else if any (λ pattern'. wildcard lower pattern' upstream) auth.excluded
      then none
      else if not (contains (lower (requested_model source)) auth.registered_models)
          && not (contains (lower upstream) auth.registered_models)
      then none
      else some upstream

  unfoldable pub select_auths : List ManagedAuth → ParsedConfig → Coordinate → List Selected
  select_auths [] config source = []
  select_auths (auth ∷ auths) config source =
      keep_selected auth (auth_can_serve auth config source) (select_auths auths config source)

  module _ (stable_id : Text → Text) where
    abbrev pub candidate_ids : List Selected → List Text
    candidate_ids selected =
        sort_by (λ t. t) (map (λ (s : Selected). stable_id s.auth.relative_path) selected)

    -- the route of a coordinate whose accounts are selected, first account first
    unfoldable pub route_model : Coordinate → Selected → List Selected → Checked RouteModel
    route_model source first rest = do
      throw_if
          (not (length (distinct (map (λ (s : Selected). s.upstream_model) (first ∷ rest))) == 1))
          (failure
            "managed Codex source route resolves to incompatible per-account upstream models")
      throw_if
          (not (
              length (distinct (candidate_ids (first ∷ rest)))
              == length (candidate_ids (first ∷ rest)))
            || any (λ i. not (is_stable_id i)) (candidate_ids (first ∷ rest)))
          (failure "managed Codex source candidate identity is invalid")
      ok (record {
        source = source;
        upstream_model = first.upstream_model;
        candidates = candidate_ids (first ∷ rest);
      })

    -- what the loop over the coordinates does with one, before it goes on
    unfoldable pub add_route :
        Bool → Coordinate → List Selected → Checked (List RouteModel) → Checked (List RouteModel)
    add_route allow_missing source [] more =
        if allow_missing
        then more
        else err (failure "managed Codex source route has no exact active account candidate")
    add_route allow_missing source (first ∷ rest) more =
        route_model source first rest >>= λ r. more >>= λ rs. ok (r ∷ rs)

    unfoldable pub routes_from :
        Bool
        → ParsedConfig
        → List ManagedAuth
        → List Text
        → List Coordinate
        → Checked (List RouteModel)
    routes_from allow_missing config auths seen [] = ok []
    routes_from allow_missing config auths seen (raw ∷ rest) = do
      source ← coordinate raw
      throw_if (contains (coordinate_key source) seen)
          (failure "managed Codex source route is duplicated")
      add_route allow_missing source (select_auths auths config source)
          (routes_from allow_missing config auths (coordinate_key source ∷ seen) rest)

    unfoldable pub inspect_route_models :
        ℕ
        → Option Value
        → List AuthInput
        → List SnapshotEntry
        → List Coordinate
        → ℕ
        → Bool
        → Checked (List RouteModel)
    inspect_route_models config_bytes document inputs snapshot requested key_bytes allow_missing =
        do
          throw_if (not (key_bytes == 32)) (failure "managed Codex source identity key is invalid")
          config ← config_inspection lower config_bytes document
          models ← snapshot_models lower snapshot
          auths ← inspect_auths lower inputs models config
          throw_if (length requested == 0 || ltb max_models (length requested))
              (failure "managed Codex source route set is invalid")
          results ← routes_from allow_missing config auths [] requested
          ok (sort_by (λ (r : RouteModel). coordinate_key r.source) results)
