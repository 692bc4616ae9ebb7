-- ===== src/Routes/Config.antt =====
-- The source configuration: `normalizeAliases`, `normalizeExcluded`, `parseClassifyRules` and
-- `configInspection`, from the parsed YAML document on.
use memeloop_token_center_mi.Common.{
  ℕ, Bool, false, ◌||◌, not, Option, none, some, String, List, [], ◌∷◌, Text, units, text_eq, ltb,
  ◌==◌, if◌then◌else◌, any, length, contains, ok, err, throw_if, ◌>>=◌, ◌>>◌,
}
use memeloop_token_center_mi.Json.Parser.{Value, null, bool, str, arr, obj, Fields}
use memeloop_token_center_mi.Routes.Strings.{trim, byte_length, sort_by, distinct}
use memeloop_token_center_mi.Routes.Schema.{
  invalid_schema, failure, Checked, get, items, object, source_text, breaks_line,
}
use memeloop_token_center_mi.Routes.Wildcard.{
  Alias, RuleField, filename, id, provider, ClassifyRule,
}
use memeloop_token_center_mi.Routes.Regexp.{
  max_accounts, max_models, max_config_bytes, literal_go_regexp,
}

pub record ParsedConfig : Type 0 where
  pub force_model_prefix : Bool
  pub global_aliases : List Alias
  pub global_excluded : List Text
  pub classify : List ClassifyRule

abbrev pub is_bad_name : Text → Bool
is_bad_name s = length s == 0 || ltb 500 (byte_length s) || any breaks_line s

-- the value of a field that is a string
abbrev pub string_of : Option Value → Option Text
string_of (some (str s)) = some s
string_of _ = none

module _ (lower : Text → Text) where
  -- an entry that the loop of `normalizeAliases` keeps
  unfoldable pub clean_alias : Option Text → Option Text → Option Alias
  clean_alias (some name) (some alias) =
      if is_bad_name (trim name)
        || is_bad_name (trim alias)
        || text_eq (lower (trim name)) (lower (trim alias))
      then none
      else some (record { name = trim name; alias = trim alias })
  clean_alias none _ = none
  clean_alias (some name) none = none

  abbrev pub keep_alias :
      List Text → Option Alias → (List Text → Checked (List Alias)) → Checked (List Alias)
  keep_alias seen none more = more seen
  keep_alias seen (some a) more =
      if contains (lower a.alias) seen
      then more seen
      else more (lower a.alias ∷ seen) >>= λ rest. ok (a ∷ rest)

  -- the loop, with the lower-case aliases seen
  unfoldable pub aliases_from : String → List Value → List Text → Checked (List Alias)
  aliases_from label [] seen = ok []
  aliases_from label (item ∷ rest) seen = object (some item) label >>= λ entry.
      keep_alias seen
        (clean_alias (string_of (get (units "name") entry)) (string_of (get (units "alias") entry)))
        (aliases_from label rest)

  unfoldable pub normalize_aliases : Option Value → String → Checked (List Alias)
  normalize_aliases none label = ok []
  normalize_aliases (some null) label = ok []
  normalize_aliases (some (arr vs)) label =
      if ltb max_models (length (items vs))
      then err (invalid_schema label)
      else aliases_from label (items vs) []
  normalize_aliases (some _) label = err (invalid_schema label)

  unfoldable pub lower_texts : String → List Value → Checked (List Text)
  lower_texts label [] = ok []
  lower_texts label (item ∷ rest) =
      source_text (some item) label >>= λ t. lower_texts label rest >>= λ ts. ok (lower t ∷ ts)

  unfoldable pub normalize_excluded : Option Value → String → Checked (List Text)
  normalize_excluded none label = ok []
  normalize_excluded (some null) label = ok []
  normalize_excluded (some (arr vs)) label =
      if ltb max_models (length (items vs))
      then err (invalid_schema label)
      else lower_texts label (items vs) >>= λ ts. ok (sort_by (λ t. t) (distinct ts))
  normalize_excluded (some _) label = err (invalid_schema label)

  unfoldable pub rule_field : Text → Checked RuleField
  rule_field t =
      if text_eq t (units "filename")
      then ok filename
      else if text_eq t (units "id")
      then ok id
      else if text_eq t (units "provider")
      then ok provider
      else err (failure "CPA key-policy classify rule needs unavailable scheduler metadata")

  abbrev enabled_flag : Option Value → Checked Bool
  enabled_flag (some (bool b)) = ok b
  enabled_flag _ = err (invalid_schema "CPA key-policy classify rule")

  -- what a rule says, its name read before
  unfoldable pub rule_of : Fields → Checked ClassifyRule
  rule_of rule = do
    enabled ← enabled_flag (get (units "enabled") rule)
    field_text ← source_text (get (units "field") rule) "CPA key-policy classify rule field"
    target ← rule_field (lower field_text)
    group ← source_text (get (units "group") rule) "CPA key-policy classify rule group"
    pattern' ← literal_go_regexp (get (units "pattern") rule)
    ok (record { target = target; pattern = pattern'; group = lower group; enabled = enabled })

  -- the loop over the rules, with the names seen
  unfoldable pub rules_from : List Value → List Text → Checked (List ClassifyRule)
  rules_from [] names = ok []
  rules_from (value ∷ rest) names = do
    rule ← object (some value) "CPA key-policy classify rule"
    name ← source_text (get (units "name") rule) "CPA key-policy classify rule name"
    throw_if (contains (lower name) names) (failure "CPA key-policy classify rule is duplicated")
    r ← rule_of rule
    rs ← rules_from rest (lower name ∷ names)
    ok (r ∷ rs)

  unfoldable pub classify_rules : Option Value → Checked (List ClassifyRule)
  classify_rules none = ok []
  classify_rules (some null) = ok []
  classify_rules (some (arr vs)) =
      if ltb max_accounts (length (items vs))
      then err (invalid_schema "CPA key-policy classify rules")
      else rules_from (items vs) []
  classify_rules (some _) = err (invalid_schema "CPA key-policy classify rules")

  abbrev is_native_access : Option Value → Bool
  is_native_access (some (str s)) = text_eq s (units "native-access")
  is_native_access _ = false

  unfoldable pub policy_rules : Option Value → Checked (List ClassifyRule)
  policy_rules none = ok []
  policy_rules (some policy) = do
    fields ← object (some policy) "CPA key-policy plugin config"
    throw_if (not (is_native_access (get (units "mode") fields)))
        (failure "CPA key-policy plugin is not in native-access mode")
    classify_rules (get (units "classify_rules") fields)

  unfoldable pub parse_classify_rules : Option Value → Checked (List ClassifyRule)
  parse_classify_rules none = ok []
  parse_classify_rules (some plugins) = do
    root ← object (some plugins) "CPA plugins"
    configs ← object (get (units "configs") root) "CPA plugin configs"
    policy_rules (get (units "cpa-key-policy") configs)

  -- `config["force-model-prefix"] ?? false`
  abbrev force_flag : Option Value → Checked Bool
  force_flag none = ok false
  force_flag (some null) = ok false
  force_flag (some (bool b)) = ok b
  force_flag (some _) = err (failure "CPA force-model-prefix is invalid")

  unfoldable pub codex_aliases : Option Value → Checked (List Alias)
  codex_aliases none = ok []
  codex_aliases (some value) = do
    fields ← object (some value) "CPA oauth-model-alias"
    normalize_aliases (get (units "codex") fields) "CPA codex OAuth aliases"

  unfoldable pub codex_excluded : Option Value → Checked (List Text)
  codex_excluded none = ok []
  codex_excluded (some value) = do
    fields ← object (some value) "CPA oauth-excluded-models"
    normalize_excluded (get (units "codex") fields) "CPA Codex OAuth excluded models"

  -- The document is what the YAML parser makes of the file; `none` where the file is not UTF-8 or
  -- not YAML without errors and warnings.
  unfoldable pub parse_config : ℕ → Option Value → Checked Fields
  parse_config bytes document =
      if ltb max_config_bytes bytes
      then err (failure "CPA config exceeds the supported size")
      else (elim document [
        | some (obj fields) ↦ ok fields
        | _ ↦ err (failure "CPA config is not valid safe YAML")
      ])

  unfoldable pub config_inspection : ℕ → Option Value → Checked ParsedConfig
  config_inspection bytes document = do
    config ← parse_config bytes document
    force ← force_flag (get (units "force-model-prefix") config)
    aliases ← codex_aliases (get (units "oauth-model-alias") config)
    excluded ← codex_excluded (get (units "oauth-excluded-models") config)
    rules ← parse_classify_rules (get (units "plugins") config)
    ok (record {
      force_model_prefix = force;
      global_aliases = aliases;
      global_excluded = excluded;
      classify = rules;
    })
