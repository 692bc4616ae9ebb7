-- ===== src/Routes/Schema.antt =====
-- The readers of untyped values: `object`, `text`, `sourceText`, `relativeAuthPath`. A value is what
-- the strict JSON parser, or the YAML parser's `toJS`, returns; `undefined` is `none`.
use memeloop_token_center_mi.Common.{
  ℕ, Bool, false, ◌&&◌, ◌||◌, not, Option, none, some, String, List, [], ◌∷◌, Text, units, text_eq,
  ltb, leb, ◌==◌, if◌then◌else◌, any, all, length, Result, ok, err, throw_if, ◌>>=◌, ◌>>◌,
}
use memeloop_token_center_mi.Json.Parser.{Value, str, obj, Items, nil, cons, Fields, end, field}
use memeloop_token_center_mi.Routes.Strings.{starts_with, split, trim, byte_length}

-- `ManagedCodexRouteFailure`: "LABEL has an invalid schema", or another message.
pub data RouteFailure : Type 0 where
  invalid_schema : (label : String) → RouteFailure
  failure : (message : String) → RouteFailure

abbrev pub Checked : Type 0 → Type 0
Checked A = Result RouteFailure A

unfoldable pub get : Text → Fields → Option Value
get key end = none
get key (field k v fs) = if text_eq k key then some v else get key fs

abbrev pub items : Items → List Value
items nil = []
items (cons v vs) = v ∷ items vs

unfoldable pub object : Option Value → String → Checked Fields
object (some (obj fields)) label = ok fields
object _ label = err (invalid_schema label)

-- /[\0\r\n]/
abbrev pub breaks_line : ℕ → Bool
breaks_line c = c == 0 || c == 0x0d || c == 0x0a

abbrev pub is_word : ℕ → Bool
is_word c = (leb b'A' c && leb c b'Z') || (leb b'a' c && leb c b'z') || (leb b'0' c && leb c b'9')

abbrev is_public : ℕ → Bool
is_public c =
    is_word c
    || c == b'.'
    || c == b'_'
    || c == b':'
    || c == b'/'
    || c == b'+'
    || c == b'@'
    || c == b'='
    || c == b'-'

-- PUBLIC_TEXT
unfoldable pub is_public_text : Text → Bool
is_public_text [] = false
is_public_text (c ∷ s) = is_word c && all is_public s && leb (length s) 499

unfoldable pub text : Text → String → Checked Text
text value label =
    if text_eq (trim value) value && is_public_text value && not (any breaks_line value)
    then ok value
    else err (invalid_schema label)

abbrev pub is_source_text : Text → Bool
is_source_text value =
    text_eq (trim value) value
    && not (length value == 0)
    && leb (byte_length value) 500
    && not (any breaks_line value)

unfoldable pub source_text : Option Value → String → Checked Text
source_text (some (str value)) label =
    if is_source_text value then ok value else err (invalid_schema label)
source_text _ label = err (invalid_schema label)

abbrev pub is_bad_part : Text → Bool
is_bad_part part = length part == 0 || text_eq part (units ".") || text_eq part (units "..")

-- the tests of `relativeAuthPath` on a text that `sourceText` let through
abbrev pub is_bad_path : Text → Bool
is_bad_path path =
    ltb 512 (byte_length path)
    || starts_with (units "/") path
    || any (λ c. c == 0x5c) path
    || any is_bad_part (split b'/' path)

unfoldable pub relative_auth_path : Option Value → Checked Text
relative_auth_path value = do
  path ← source_text value "managed Codex auth relative path"
  throw_if (is_bad_path path) (failure "managed Codex auth relative path is invalid")
  ok path
