-- ===== src/Json/Parser.antt =====
-- `parseStrictJson` itself. A number with a fraction or an exponent is kept as its text: the double
-- that it stands for is the host's, and `is_finite` tells whether that double is finite.
-- The loops over members and elements run on fuel, one more than the length of the text left.
use memeloop_token_center_mi.Common.{
  ℕ, zero, suc, Bool, true, false, Option, none, some, List, [], ◌∷◌, ◌++◌, Text, units, leb, ◌==◌,
  if◌then◌else◌, Result, ok, err, throw_if, ◌>>=◌, ◌>>◌, contains, length,
}
use memeloop_token_center_mi.Json.Strings.{
  JsonError, invalid, duplicate_key, out_of_fuel, Parsed, quote, skip_space, string,
}
use memeloop_token_center_mi.Json.Number.{
  Lexeme, number_lexeme, decimal, safe_integer_max, is_integral,
}

mutual
  pub data Value : Type 0 where
    null : Value
    bool : Bool → Value
    int : (negative : Bool) → (magnitude : ℕ) → Value
    real : (negative : Bool) → (literal : Text) → Value
    str : Text → Value
    arr : Items → Value
    obj : Fields → Value

  pub data Items : Type 0 where
    nil : Items
    cons : Value → Items → Items

  pub data Fields : Type 0 where
    end : Fields
    field : Text → Value → Fields → Fields

-- `source.startsWith(literal, cursor)`: what stands behind the literal
unfoldable pub behind : Text → Text → Option Text
behind [] s = some s
behind (a ∷ l) [] = none
behind (a ∷ l) (c ∷ s) = let rest = behind l s in if a == c then rest else none

-- the value of a literal, if the text begins with it
abbrev pub or_literal : Option Text → Value → Parsed Value → Parsed Value
or_literal (some rest) v otherwise = ok (v, rest)
or_literal none v otherwise = otherwise

unfoldable pub expect : ℕ → Text → Result JsonError Text
expect c [] = err invalid
expect c (d ∷ s) = if d == c then ok s else err invalid

module _ (is_finite : Bool → Text → Bool) where
  unfoldable pub number_value : Lexeme → Parsed Value
  number_value l =
      if is_integral l
      then (if leb (decimal 0 l.whole) safe_integer_max
          then ok (int l.negative (decimal 0 l.whole), l.rest)
          else err invalid)
      else if is_finite l.negative (l.whole ++ l.fraction ++ l.exponent)
      then ok (real l.negative (l.whole ++ l.fraction ++ l.exponent), l.rest)
      else err invalid

  unfoldable pub number : Option Lexeme → Parsed Value
  number none = err invalid
  number (some l) = number_value l

  -- the three literals in their order, then the number
  unfoldable pub scalar : Text → Parsed Value
  scalar s = or_literal (behind (units "true") s) (bool true) (
      or_literal (behind (units "false") s) (bool false)
        (or_literal (behind (units "null") s) null (number (number_lexeme s))))

-- the separator behind an element, or the end of the array
unfoldable pub elements_end : Value → Text → (Text → Parsed Items) → Parsed Items
elements_end v [] more = err invalid
elements_end v (c ∷ s) more =
    if c == b']'
    then ok (cons v nil, s)
    else if c == b','
    then (more s >>= λ r. ok (cons v r.0, r.1))
    else err invalid

-- the separator behind a member, or the end of the object
unfoldable pub members_end : Text → Value → Text → (Text → Parsed Fields) → Parsed Fields
members_end k v [] more = err invalid
members_end k v (c ∷ s) more =
    if c == b'}'
    then ok (field k v end, s)
    else if c == b','
    then (more s >>= λ r. ok (field k v r.0, r.1))
    else err invalid

-- `value` is the parser of a value one level down.
module _ (value : Text → Parsed Value) where
  -- the `while (true)` of an array
  unfoldable pub elements : ℕ → Text → Parsed Items
  elements zero s = err out_of_fuel
  elements (suc fuel) s = value s >>= λ v. elements_end v.0 (skip_space v.1) (elements fuel)

  -- the `while (true)` of an object, with the keys so far
  unfoldable pub members : ℕ → List Text → Text → Parsed Fields
  members zero keys s = err out_of_fuel
  members (suc fuel) keys s = string (skip_space s) >>= λ k.
      throw_if (contains k.0 keys) duplicate_key
      >> (expect b':' (skip_space k.1) >>= λ after.
          value after >>= λ v. members_end k.0 v.0 (skip_space v.1) (members fuel (k.0 ∷ keys)))

  unfoldable pub array : Text → Parsed Value
  array s =
      let inner = skip_space s in
      or_literal (behind (units "]") inner) (arr nil)
        (elements (suc (length inner)) inner >>= λ r. ok (arr r.0, r.1))

  unfoldable pub object : Text → Parsed Value
  object s =
      let inner = skip_space s in
      or_literal (behind (units "}") inner) (obj end)
        (members (suc (length inner)) [] inner >>= λ r. ok (obj r.0, r.1))

-- `cursor !== source.length` behind the value
abbrev pub whole_text : Value × Text → Result JsonError Value
whole_text (v, []) = ok v
whole_text (v, _ ∷ _) = err invalid

module _ (is_finite : Bool → Text → Bool) where
  -- what the first unit behind the white space selects
  unfoldable pub by_head : (Text → Parsed Value) → Text → Parsed Value
  by_head value [] = err invalid
  by_head value (c ∷ s) =
      if c == quote
      then string (c ∷ s) >>= (λ r. ok (str r.0, r.1))
      else if c == b'{'
      then object value s
      else if c == b'['
      then array value s
      else scalar is_finite (c ∷ s)

  -- The number is that of the levels left: `depth > maxDepth` leaves none.
  unfoldable pub value : ℕ → Text → Parsed Value
  value zero s = err invalid
  value (suc levels) s = by_head (value levels) (skip_space s)

  unfoldable pub parse_strict_json : ℕ → Text → Result JsonError Value
  parse_strict_json max_depth source =
      value (suc max_depth) source >>= λ r. whole_text (r.0, skip_space r.1)
