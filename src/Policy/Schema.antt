-- ===== src/Policy/Schema.antt =====
-- The readers of untyped values of ops/legacy-policy/import-cpa-key-policy.ts.
use memeloop_token_center_mi.Common.{
  ℕ, suc, Bool, true, false, not, ◌&&◌, ◌||◌, Option, none, some, List, [], ◌∷◌, ◌++◌, Text, units,
  text_eq, contains, ltb, leb, ◌==◌, if◌then◌else◌, any, all, length, Result, ok, err, throw_if,
  ◌>>=◌, ◌>>◌,
}
use memeloop_token_center_mi.Json.Parser.{Value, int, real, str, arr, obj, Fields, behind}
use memeloop_token_center_mi.Json.Ensured.{keys_of}
use memeloop_token_center_mi.Routes.Strings.{trim, byte_length, sort_by, distinct}
use memeloop_token_center_mi.Routes.Schema.{items, breaks_line, is_word}

-- `ImportFailure`: "LABEL has an invalid schema", another message, or the counts of a plan that lacks
-- mappings
pub data ImportFailure : Type 0 where
  invalid_schema : (label : Text) → ImportFailure
  failure : (message : Text) → ImportFailure
  unmatched : (policies grants matched missing : ℕ) → ImportFailure

abbrev pub Imported : Type 0 → Type 0
Imported A = Result ImportFailure A

abbrev pub same : List Text → List Text → Bool
same [] [] = true
same [] (_ ∷ _) = false
same (_ ∷ _) [] = false
same (s ∷ ss) (t ∷ ts) = text_eq s t && same ss ts

abbrev pub is_hex : ℕ → Bool
is_hex c = (leb b'0' c && leb c b'9') || (leb b'a' c && leb c b'f')

-- a unit of UUID at a place
abbrev pub uuid_unit : ℕ → ℕ → Bool
uuid_unit place c =
    if place == 8 || place == 13 || place == 18 || place == 23
    then c == b'-'
    else if place == 19
    then c == b'8' || c == b'9' || c == b'a' || c == b'b'
    else is_hex c

unfoldable pub uuid_units : ℕ → Text → Bool
uuid_units place [] = place == 36
uuid_units place (c ∷ s) = uuid_unit place c && uuid_units (suc place) s

-- UUID
abbrev pub is_uuid : Text → Bool
is_uuid s = length s == 36 && uuid_units 0 s

-- SHA256
abbrev pub is_sha256 : Text → Bool
is_sha256 s = length s == 64 && all is_hex s

-- TENANT
abbrev pub is_tenant : Text → Bool
is_tenant s =
    not (length s == 0)
    && leb (length s) 200
    && all (λ c. is_word c || c == b'.' || c == b'_' || c == b':' || c == b'-') s

-- `Object.keys(record)` is exactly `keys`
abbrev pub has_keys : List Text → Fields → Bool
has_keys keys fields = same (sort_by (λ t. t) (keys_of fields)) (sort_by (λ t. t) keys)

unfoldable pub object : Option Value → List Text → Text → Imported Fields
object (some (obj fields)) keys label =
    if has_keys keys fields then ok fields else err (invalid_schema label)
object _ keys label = err (invalid_schema label)

unfoldable pub partial_object : Option Value → List Text → Text → Imported Fields
partial_object (some (obj fields)) allowed label =
    if length (keys_of fields) == 0 || any (λ key. not (contains key allowed)) (keys_of fields)
    then err (invalid_schema label)
    else ok fields
partial_object _ allowed label = err (invalid_schema label)

abbrev pub is_string : Bool → Text → Bool
is_string allow_empty value =
    text_eq (trim value) value
    && not (any breaks_line value)
    && (allow_empty || not (length value == 0))
    && leb (byte_length value) 512

unfoldable pub string : Option Value → Text → Bool → Imported Text
string (some (str value)) label allow_empty =
    if is_string allow_empty value then ok value else err (invalid_schema label)
string _ label allow_empty = err (invalid_schema label)

unfoldable pub list : Option Value → ℕ → Text → Imported (List Value)
list (some (arr vs)) most label =
    if ltb most (length (items vs)) then err (invalid_schema label) else ok (items vs)
list _ most label = err (invalid_schema label)

-- `lower` is the host's `toLowerCase`; `whole` is the value of a number with a fraction or an exponent
-- where its double is a safe integer that is not negative.
module _ (lower : Text → Text) (whole : Bool → Text → Option ℕ) where
  unfoldable pub number : Option Value → Option ℕ
  number (some (int false n)) = some n
  number (some (int true n)) = if n == 0 then some 0 else none
  number (some (real negative s)) = whole negative s
  number _ = none

  unfoldable pub integer : Option Value → Text → Imported ℕ
  unfolding number
  integer value label = elim (number value) [ some n ↦ ok n | none ↦ err (invalid_schema label) ]

  -- `value === 1`
  unfoldable pub is_one : Option Value → Bool
  unfolding number
  is_one value = elim (number value) [ some n ↦ n == 1 | none ↦ false ]

  unfoldable pub uuid : Option Value → Text → Imported Text
  uuid value label = string value label false >>= λ s.
      if is_uuid (lower s) && text_eq (lower s) s then ok s else err (invalid_schema label)

  unfoldable pub hex : Option Value → Text → Imported Text
  hex value label = string value label false >>= λ s.
      if is_sha256 (lower s) && text_eq (lower s) s then ok s else err (invalid_schema label)

  abbrev pub without_scheme : Text → Text
  without_scheme raw = elim (behind (units "sha256:") raw) [ some rest ↦ rest | none ↦ raw ]

  unfoldable pub source_policy_key_hash : Option Value → Text → Imported Text
  source_policy_key_hash value label = string value label false >>= λ raw.
      if is_sha256 (without_scheme raw) then ok (without_scheme raw) else err (invalid_schema label)

  unfoldable pub uuids : List Value → Text → Imported (List Text)
  uuids [] label = ok []
  uuids (v ∷ vs) label = uuid (some v) label >>= λ t. uuids vs label >>= λ ts. ok (t ∷ ts)

  abbrev pub once : List Text → Bool
  once ts = length (distinct ts) == length ts

  -- `uniqueSorted` with the parser `uuid`, the only one it is called with
  unfoldable pub unique_sorted : Option Value → Text → Imported (List Text)
  unique_sorted values label = list values 1000 label >>= λ vs. uuids vs label >>= λ ts.
      throw_if (not (once (sort_by (λ t. t) ts))) (failure (label ++ units " contains duplicates"))
      >> ok (sort_by (λ t. t) ts)
