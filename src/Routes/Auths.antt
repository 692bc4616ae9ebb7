-- ===== src/Routes/Auths.antt =====
-- The accounts and the registry snapshot: `snapshotModels` and `inspectAuths`.
use memeloop_token_center_mi.Common.{
  Bool, true, false, ◌||◌, not, Option, none, some, List, [], ◌∷◌, ◌++◌, Text, units, text_eq, ltb,
  ◌==◌, if◌then◌else◌, length, contains, ok, err, throw_if, ◌>>=◌, ◌>>◌, map,
}
use memeloop_token_center_mi.Json.Parser.{Value, null, bool, str, Fields}
use memeloop_token_center_mi.Routes.Strings.{trim, sort_by, distinct}
use memeloop_token_center_mi.Routes.Schema.{
  invalid_schema, failure, Checked, get, object, relative_auth_path,
}
use memeloop_token_center_mi.Routes.Wildcard.{Alias, auth_prefix, auth_groups}
use memeloop_token_center_mi.Routes.Regexp.{max_accounts, max_models}
use memeloop_token_center_mi.Routes.Config.{
  ParsedConfig, normalize_aliases, normalize_excluded, lower_texts,
}

pub record SnapshotEntry : Type 0 where
  pub auth_id : Text
  pub provider : Text
  pub registered_models : List Text

-- `Map<string, ReadonlySet<string>>`: its keys are distinct
abbrev pub Snapshot : Type 0
Snapshot = List (Text × List Text)

unfoldable pub registered : Text → Snapshot → Option (List Text)
registered path [] = none
registered path ((k, models) ∷ rest) = if text_eq k path then some models else registered path rest

abbrev pub is_known {ℓ} : {A : Type ℓ} → Option A → Bool
is_known none = false
is_known (some _) = true

pub record AuthInput : Type 0 where
  pub relative_path : Text
  pub document : Value

pub record ManagedAuth : Type 0 where
  pub relative_path : Text
  pub prefix : Option Text
  pub groups : List Text
  pub aliases : List Alias
  pub excluded : List Text
  pub registered_models : List Text

-- `Object.hasOwn(document, key) ? document[key] : document[other]`
abbrev pub get_or : Text → Text → Fields → Option Value
get_or key other fields = elim (get key fields) [ some v ↦ some v | none ↦ get other fields ]

module _ (lower : Text → Text) where
  unfoldable pub snapshot_entry : Snapshot → SnapshotEntry → Checked (Text × List Text)
  snapshot_entry result entry = do
    auth_id ← relative_auth_path (some (str entry.auth_id))
    throw_if
        (not (text_eq entry.provider (units "codex"))
          || ltb max_models (length entry.registered_models)
          || is_known (registered auth_id result))
        (invalid_schema "managed Codex model snapshot")
    models ← lower_texts lower "managed Codex registered model" (map str entry.registered_models)
    throw_if (not (length (distinct models) == length models))
        (failure "managed Codex model snapshot has duplicate models")
    ok (auth_id, models)

  unfoldable pub snapshot_from : Snapshot → List SnapshotEntry → Checked Snapshot
  snapshot_from result [] = ok result
  snapshot_from result (entry ∷ rest) =
      snapshot_entry result entry >>= λ e. snapshot_from (e ∷ result) rest

  unfoldable pub snapshot_models : List SnapshotEntry → Checked Snapshot
  unfolding snapshot_from
  snapshot_models entries =
      if ltb max_accounts (length entries)
      then err (failure "managed Codex model snapshot is too large")
      else snapshot_from [] entries

  abbrev is_codex : Option Value → Bool
  is_codex (some (str s)) = text_eq (lower (trim s)) (units "codex")
  is_codex _ = false

  -- `document.disabled ?? false`
  abbrev pub disabled_flag : Option Value → Checked Bool
  disabled_flag none = ok false
  disabled_flag (some null) = ok false
  disabled_flag (some (bool b)) = ok b
  disabled_flag (some _) = err (failure "CPA managed Codex auth disabled flag is invalid")

  abbrev required_models : Option (List Text) → Checked (List Text)
  required_models none =
      err (failure "managed Codex model snapshot does not exactly cover source auth files")
  required_models (some models) = ok models

  unfoldable pub active_auth : ParsedConfig → Text → Fields → List Text → Checked ManagedAuth
  active_auth config path document models = do
    aliases ←
        normalize_aliases lower (get_or (units "model_aliases") (units "model-aliases") document)
          "CPA managed Codex per-auth aliases"
    excluded ←
        normalize_excluded lower
          (get_or (units "excluded_models") (units "excluded-models") document)
          "CPA managed Codex per-auth excluded models"
    ok (record {
      relative_path = path;
      prefix = auth_prefix (get (units "prefix") document);
      groups = auth_groups path config.classify;
      aliases = aliases ++ config.global_aliases;
      excluded = sort_by (λ t. t) (distinct (excluded ++ config.global_excluded));
      registered_models = models;
    })

  abbrev if_active :
      Bool → Checked ManagedAuth → Checked (List ManagedAuth) → Checked (List ManagedAuth)
  if_active true auth more = more
  if_active false auth more = auth >>= λ a. more >>= λ rest. ok (a ∷ rest)

  -- the loop of `inspectAuths`: the active accounts, and the number of paths
  unfoldable pub auths_from :
      ParsedConfig → Snapshot → List Text → List AuthInput → Checked (List ManagedAuth)
  auths_from config snapshot paths [] = ok []
  auths_from config snapshot paths (input ∷ rest) = do
    path ← relative_auth_path (some (str input.relative_path))
    throw_if (contains path paths) (failure "CPA managed Codex auth path is duplicated")
    document ← object (some input.document) "CPA managed Codex auth document"
    throw_if (not (is_codex (get (units "type") document)))
        (failure "CPA managed auth input is not Codex OAuth")
    disabled ← disabled_flag (get (units "disabled") document)
    models ← required_models (registered path snapshot)
    if_active disabled (active_auth config path document models)
        (auths_from config snapshot (path ∷ paths) rest)

  -- Every input adds one path, so that `paths.size` is the number of inputs.
  unfoldable pub inspect_auths :
      List AuthInput → Snapshot → ParsedConfig → Checked (List ManagedAuth)
  inspect_auths inputs snapshot config = do
    throw_if (ltb max_accounts (length inputs))
        (failure "CPA managed Codex auth inventory is too large")
    result ← auths_from config snapshot [] inputs
    throw_if (length result == 0) (failure "CPA source has no active managed Codex OAuth account")
    throw_if (not (length snapshot == length inputs))
        (failure "managed Codex model snapshot does not exactly cover source auth files")
    ok (sort_by (λ (a : ManagedAuth). a.relative_path) result)
