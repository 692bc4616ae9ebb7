-- ===== src/Routes/Material.antt =====
-- `managedCodexCandidateSets`, `parseManagedCodexModelSnapshot` and
-- `assertManagedCodexModelSnapshotConfig`.
use memeloop_token_center_mi.Json.Parser.{
  obj, Items, nil, cons, field, end, Value, int, real, str, arr, Fields,
}
use memeloop_token_center_mi.Routes.Auths.{Snapshot, SnapshotEntry, snapshot_models}
use memeloop_token_center_mi.Common.{
  ℕ, Bool, false, not, ◌||◌, Option, none, some, List, [], ◌∷◌, ◌++◌, Text, units, text_eq,
  contains, ltb, ◌==◌, if◌then◌else◌, any, length, ok, err, throw_if, ◌>>=◌, ◌>>◌,
}
use memeloop_token_center_mi.Json.Ensured.{keys_of}
use memeloop_token_center_mi.Routes.Strings.{sort_by}
use memeloop_token_center_mi.Routes.Schema.{
  failure, invalid_schema, Checked, get, items, object, source_text, relative_auth_path,
}
use memeloop_token_center_mi.Routes.Regexp.{max_models}
use memeloop_token_center_mi.Routes.Serve.{Coordinate, coordinate, coordinate_key, is_stable_id}

-- the elements joined by NULs
abbrev join_nul : List Text → Text
join_nul [] = []
join_nul (s ∷ []) = s
join_nul (s ∷ t ∷ ts) = s ++ 0 ∷ join_nul (t ∷ ts)

-- `Object.keys(record).sort().join("\0")` is that of the keys
abbrev pub has_joined_keys : List Text → Fields → Bool
has_joined_keys keys fields = text_eq (join_nul (sort_by (λ t. t) (keys_of fields))) (join_nul keys)

pub record ParsedSnapshot : Type 0 where
  pub source_config_sha256 : Text
  pub auth_files_sha256 : Text
  pub auth_models : List SnapshotEntry

unfoldable pub stable_text : Option Value → Checked Text
stable_text (some (str s)) =
    if is_stable_id s then ok s else err (invalid_schema "managed Codex model snapshot")
stable_text _ = err (invalid_schema "managed Codex model snapshot")

unfoldable pub elements_of : Option Value → Checked (List Value)
elements_of (some (arr vs)) = ok (items vs)
elements_of _ = err (invalid_schema "managed Codex model snapshot")

abbrev is_codex_text : Option Value → Bool
is_codex_text (some (str s)) = text_eq s (units "codex")
is_codex_text _ = false

unfoldable pub registered_texts : List Value → Checked (List Text)
registered_texts [] = ok []
registered_texts (v ∷ vs) = source_text (some v) "managed Codex registered model" >>= λ t.
    registered_texts vs >>= λ ts. ok (t ∷ ts)

unfoldable pub entry_of : Value → Checked SnapshotEntry
entry_of value = do
  record' ← object (some value) "managed Codex model snapshot entry"
  throw_if
      (not (
        has_joined_keys (units "auth_id" ∷ units "provider" ∷ units "registered_models" ∷ [])
          record'))
      (invalid_schema "managed Codex model snapshot")
  throw_if (not (is_codex_text (get (units "provider") record')))
      (invalid_schema "managed Codex model snapshot")
  models ← elements_of (get (units "registered_models") record')
  auth_id ← relative_auth_path (get (units "auth_id") record')
  texts ← registered_texts models
  ok (record { auth_id = auth_id; provider = units "codex"; registered_models = texts })

unfoldable pub entries_of : List Value → Checked (List SnapshotEntry)
entries_of [] = ok []
entries_of (v ∷ vs) = entry_of v >>= λ e. entries_of vs >>= λ es. ok (e ∷ es)

abbrev pub snapshot_fields : List Text
snapshot_fields =
    units "auth_files_sha256"
    ∷ units "auth_models"
    ∷ units "source_config_sha256"
    ∷ units "version"
    ∷ []

-- `whole` is the value of a number with a fraction or an exponent.
abbrev pub is_version_one : (Bool → Text → Option ℕ) → Option Value → Bool
is_version_one whole (some (int false n)) = n == 1
is_version_one whole (some (real negative s)) = elim (whole negative s) [
  | some n ↦ n == 1
  | none ↦ false
]
is_version_one whole _ = false

-- The document is what the strict JSON parser returns, if it returns.
unfoldable pub parse_snapshot :
    (Text → Text) → (Bool → Text → Option ℕ) → Option Value → Checked ParsedSnapshot
parse_snapshot lower whole none = err (failure "managed Codex model snapshot is not strict JSON")
parse_snapshot lower whole (some document) = do
  root ← object (some document) "managed Codex model snapshot"
  throw_if (not (has_joined_keys snapshot_fields root))
      (invalid_schema "managed Codex model snapshot")
  throw_if (not (is_version_one whole (get (units "version") root)))
      (invalid_schema "managed Codex model snapshot")
  config ← stable_text (get (units "source_config_sha256") root)
  files ← stable_text (get (units "auth_files_sha256") root)
  vs ← elements_of (get (units "auth_models") root)
  entries ← entries_of vs
  snapshot_models lower entries >>= λ _.
      ok
        (record { source_config_sha256 = config; auth_files_sha256 = files; auth_models = entries })

-- `sha256` is the digest of the configuration's bytes.
unfoldable pub check_snapshot_config :
    (List ℕ → Text) → ParsedSnapshot → List ℕ → Checked (Unit {0})
check_snapshot_config sha256 snapshot config =
    throw_if
      (not (is_stable_id snapshot.source_config_sha256)
        || not (text_eq snapshot.source_config_sha256 (sha256 config)))
      (failure "managed Codex model snapshot does not match the source config")

-- `ManagedCodexRouteModel` as `managedCodexCandidateSets` reads it, with its constants
pub record MaterialCandidate : Type 0 where
  pub source_stable_id : Text
  pub source_provider : Text
  pub driver : Text

pub record MaterialModel : Type 0 where
  pub source : Coordinate
  pub upstream_model : Text
  pub protocol : Text
  pub selection : Text
  pub candidates : List MaterialCandidate

-- `candidate.driver !== "openai-codex" || candidate.source_provider !== "codex" || !STABLE_ID.test(…)`
abbrev pub is_bad_candidate : MaterialCandidate → Bool
is_bad_candidate c =
    not (text_eq c.driver (units "openai-codex"))
    || not (text_eq c.source_provider (units "codex"))
    || not (is_stable_id c.source_stable_id)

abbrev pub model_key : MaterialModel → Text
model_key m = coordinate_key m.source

module _ (lower : Text → Text) where
  -- the loop over the models, with the keys seen
  unfoldable pub check_sets : List Text → List MaterialModel → Checked (Unit {0})
  check_sets seen [] = ok tt
  check_sets seen (model ∷ rest) = do
    source ← coordinate lower model.source
    throw_if
        (contains (coordinate_key source) seen
          || not (text_eq model.protocol (units "openai"))
          || not (text_eq model.selection (units "equal_round_robin"))
          || length model.candidates == 0
          || any is_bad_candidate model.candidates)
        (failure "managed Codex candidate material is invalid")
    check_sets (coordinate_key source ∷ seen) rest

  unfoldable pub candidate_sets : List MaterialModel → Checked (List MaterialModel)
  candidate_sets models = do
    throw_if (length models == 0 || ltb max_models (length models))
        (failure "managed Codex candidate material is empty or too large")
    check_sets [] models
    ok (sort_by model_key models)

  abbrev text_values : List Text → Items
  text_values [] = nil
  text_values (t ∷ ts) = cons (str t) (text_values ts)

  abbrev digest_entry : Text × List Text → Value
  digest_entry (auth_id, models) = obj (
      field (units "auth_id") (str auth_id) (
        field (units "provider") (str (units "codex"))
          (field (units "registered_models") (arr (text_values (sort_by (λ t. t) models))) end)))

  abbrev digest_entries : Snapshot → Items
  digest_entries [] = nil
  digest_entries (e ∷ es) = cons (digest_entry e) (digest_entries es)

  -- `managedCodexModelSnapshotDigest`; `stringify` is `JSON.stringify`, and `encode` the UTF-8 encoder.
  unfoldable pub snapshot_digest :
      (List ℕ → Text) → (Text → List ℕ) → (Value → Text) → List SnapshotEntry → Checked Text
  snapshot_digest sha256 encode stringify entries = snapshot_models lower entries >>= λ models. ok (
      sha256 (
        encode (
          stringify (
            obj (
              field (units "version") (int false 1) (
                field (units "auth_models")
                  (arr (digest_entries (sort_by (λ (e : Text × List Text). e.0) models))) end)))
          ++ 0x0a ∷ [])))
