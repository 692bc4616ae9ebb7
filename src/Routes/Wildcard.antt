-- ===== src/Routes/Wildcard.antt =====
-- `wildcard`, `resolveAlias`, `authPrefix` and `authGroups`. `lower` is the host's `toLowerCase`.
use memeloop_token_center_mi.Common.{
  Bool, false, ◌&&◌, not, Option, none, some, List, [], ◌∷◌, ◌++◌, Text, units, text_eq, ◌==◌,
  if◌then◌else◌, any, length, contains,
}
use memeloop_token_center_mi.Json.Parser.{Value, str, behind}
use memeloop_token_center_mi.Routes.Strings.{
  ends_with, find_behind, includes, split, trim, trim_start, trim_both,
}

-- `parts.at(-1)`
abbrev pub last : Text → List Text → Text
last p [] = p
last p (q ∷ qs) = last q qs

-- the loop over the parts between the first and the last; the text is what stands behind `offset`
unfoldable pub skip_middles : List Text → Text → Option Text
skip_middles [] rest = some rest
skip_middles (q ∷ []) rest = some rest
skip_middles (q ∷ r ∷ qs) rest = elim (find_behind q rest) [
  | none ↦ none
  | some behind_q ↦ skip_middles (r ∷ qs) behind_q
]

unfoldable pub wildcard_parts : List Text → Text → Bool
wildcard_parts [] input = false
wildcard_parts (p ∷ ps) input = elim (behind p input) [
  | none ↦ false
  | some rest ↦ elim (skip_middles ps rest) [ none ↦ false | some _ ↦ ends_with (last p ps) input ]
]

pub record Alias : Type 0 where
  pub name : Text
  pub alias : Text

pub data RuleField : Type 0 where
  filename id provider : RuleField

pub record ClassifyRule : Type 0 where
  pub target : RuleField
  pub pattern : Text
  pub group : Text
  pub enabled : Bool

-- `replace(/^\/+|\/+$/gu, "")` behind a trim
strip_slashes : Text → Text
unfolding trim trim_start
strip_slashes s = trim_both (λ c. c == b'/') (trim s)

unfoldable pub auth_prefix : Option Value → Option Text
unfolding strip_slashes
auth_prefix (some (str value)) =
    let normalized = strip_slashes value in
    if not (length normalized == 0) && not (any (λ c. c == b'/') normalized)
    then some normalized
    else none
auth_prefix _ = none

abbrev field_value : RuleField → Text → Text
field_value provider path = units "codex"
field_value _ path = path

-- the loop of `authGroups`, with the groups seen
unfoldable pub groups_from : List Text → Text → List ClassifyRule → List Text
groups_from seen path [] = []
groups_from seen path (rule ∷ rules) =
    let group = units "classify:" ++ rule.group in
    let skip = groups_from seen path rules in
    let add = group ∷ groups_from (group ∷ seen) path rules in
    if rule.enabled
      && includes rule.pattern (field_value rule.target path)
      && not (contains group seen)
    then add
    else skip

unfoldable pub auth_groups : Text → List ClassifyRule → List Text
unfolding groups_from
auth_groups path rules = groups_from [] path rules

module _ (lower : Text → Text) where
  unfoldable pub wildcard : Text → Text → Bool
  unfolding wildcard_parts skip_middles
  wildcard pattern' value = wildcard_parts (split b'*' (lower pattern')) (lower value)

  -- the first alias that fits
  unfoldable pub resolve_alias : Text → List Alias → Text
  resolve_alias requested [] = requested
  resolve_alias requested (a ∷ rest) =
      if text_eq (lower a.alias) (lower requested) then a.name else resolve_alias requested rest
