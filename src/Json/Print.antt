-- ===== src/Json/Print.antt =====
-- The JSON text of a value, as an independent description of what the parser reads: escapes where a
-- literal needs them, decimal integers, no white space. Each function puts its text before a rest.
use memeloop_token_center_mi.Common.{
  ℕ, zero, suc, ◌+◌, ◌/◌, ◌%◌, Bool, true, false, ◌||◌, [], ◌∷◌, ◌++◌, Text, units, ltb, ◌==◌,
  if◌then◌else◌,
}
use memeloop_token_center_mi.Json.Strings.{quote, backslash}
use memeloop_token_center_mi.Json.Parser.{
  Value, null, bool, int, real, str, arr, obj, Items, nil, cons, Fields, end, field,
}

abbrev pub hex_unit : ℕ → ℕ
hex_unit d = if ltb d 10 then d + b'0' else d + 87

-- how one unit stands in a literal
abbrev pub unit_text : ℕ → Text
unit_text c =
    if c == quote || c == backslash
    then backslash ∷ c ∷ []
    else if ltb c 0x20
    then backslash ∷ b'u' ∷ b'0' ∷ b'0' ∷ hex_unit (c / 16) ∷ hex_unit (c % 16) ∷ []
    else c ∷ []

unfoldable pub body_text : Text → Text
body_text [] = []
body_text (c ∷ s) = unit_text c ++ body_text s

abbrev pub print_string : Text → Text → Text
print_string s rest = quote ∷ body_text s ++ quote ∷ rest

-- the decimal digits, most significant first; the fuel is above the number
unfoldable pub digits_of : ℕ → ℕ → Text
digits_of zero n = []
digits_of (suc fuel) n =
    let before = digits_of fuel (n / 10) in
    if ltb n 10 then (n + b'0') ∷ [] else before ++ (n % 10 + b'0') ∷ []

abbrev pub print_int : Bool → ℕ → Text → Text
print_int true n rest = b'-' ∷ digits_of (suc n) n ++ rest
print_int false n rest = digits_of (suc n) n ++ rest

unfoldable mutual
  pub print : Value → Text → Text
  print null rest = units "null" ++ rest
  print (bool true) rest = units "true" ++ rest
  print (bool false) rest = units "false" ++ rest
  print (int negative n) rest = print_int negative n rest
  print (real negative literal) rest = (if negative then b'-' ∷ literal else literal) ++ rest
  print (str s) rest = print_string s rest
  print (arr vs) rest = b'[' ∷ print_items vs rest
  print (obj fs) rest = b'{' ∷ print_fields fs rest

  -- behind the opening bracket
  pub print_items : Items → Text → Text
  print_items nil rest = b']' ∷ rest
  print_items (cons v vs) rest = print v (print_more_items vs rest)

  -- behind an element
  pub print_more_items : Items → Text → Text
  print_more_items nil rest = b']' ∷ rest
  print_more_items (cons v vs) rest = b',' ∷ print v (print_more_items vs rest)

  pub print_fields : Fields → Text → Text
  print_fields end rest = b'}' ∷ rest
  print_fields (field k v fs) rest = print_string k (b':' ∷ print v (print_more_fields fs rest))

  pub print_more_fields : Fields → Text → Text
  print_more_fields end rest = b'}' ∷ rest
  print_more_fields (field k v fs) rest =
      b',' ∷ print_string k (b':' ∷ print v (print_more_fields fs rest))

unfoldable mutual
  -- A value without a number that is kept as text.
  pub IsExact : Value → Type 0
  IsExact (real _ _) = ⊥
  IsExact (arr vs) = AreExact vs
  IsExact (obj fs) = HasExactFields fs
  IsExact _ = Unit

  pub AreExact : Items → Type 0
  AreExact nil = Unit
  AreExact (cons v vs) = IsExact v × AreExact vs

  pub HasExactFields : Fields → Type 0
  HasExactFields end = Unit
  HasExactFields (field k v fs) = IsExact v × HasExactFields fs
