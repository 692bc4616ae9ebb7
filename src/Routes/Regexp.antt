-- ===== src/Routes/Regexp.antt =====
-- `literalGoRegexp` of ops/legacy-routes/cpa-managed-codex-route-parser.ts, and the bounds of the inputs.
use memeloop_token_center_mi.Common.{
  ℕ, Bool, true, false, ◌||◌, Option, String, [], ◌∷◌, Text, ◌==◌, if◌then◌else◌, ok, err, ◌>>=◌,
}
use memeloop_token_center_mi.Json.Parser.{Value}
use memeloop_token_center_mi.Routes.Schema.{failure, Checked, source_text}

abbrev pub max_accounts : ℕ
max_accounts = 10_000

abbrev pub max_models : ℕ
max_models = 2_000

abbrev pub max_config_bytes : ℕ
max_config_bytes = 4_194_304

-- /[\\.^$*+?()[\]{}|]/, the backslash left out
abbrev pub is_meta : ℕ → Bool
is_meta c =
    c == b'.'
    || c == b'^'
    || c == b'$'
    || c == b'*'
    || c == b'+'
    || c == b'?'
    || c == b'('
    || c == b')'
    || c == b'['
    || c == b']'
    || c == b'{'
    || c == b'}'
    || c == b'|'

abbrev pub cons_text : ℕ → Checked Text → Checked Text
cons_text c (ok s) = ok (c ∷ s)
cons_text c (err e) = err e

-- the loop of `literalGoRegexp`; the flag says that a backslash was read
unfoldable pub literal_from : String → Bool → Text → Checked Text
literal_from unsupported true [] = err (failure unsupported)
literal_from unsupported false [] = ok []
literal_from unsupported true (c ∷ s) =
    let rest = cons_text c (literal_from unsupported false s) in
    if c == 0x5c || is_meta c then rest else err (failure unsupported)
literal_from unsupported false (c ∷ s) =
    let escape = literal_from unsupported true s in
    let rest = cons_text c (literal_from unsupported false s) in
    if c == 0x5c then escape else if is_meta c then err (failure unsupported) else rest

abbrev pub not_empty : Text → Checked Text
not_empty [] = err (failure "CPA key-policy classify rule pattern is invalid")
not_empty (c ∷ s) = ok (c ∷ s)

unfoldable pub literal_go_regexp : Option Value → Checked Text
unfolding literal_from
literal_go_regexp pattern' = do
  value ← source_text pattern' "CPA key-policy classify rule pattern"
  literal ←
      literal_from "CPA key-policy classify rule pattern uses an unsupported RE2 construct" false
        value
  not_empty literal
