-- ===== src/Json/Number.antt =====
-- The number literals of `parseStrictJson`: the match of its regular expression at the cursor.
use memeloop_token_center_mi.Common.{
  ℕ, ◌+◌, ◌-◌, ◌*◌, ◌^◌, Bool, true, false, ◌&&◌, ◌||◌, Option, none, some, [], ◌∷◌, ◌++◌, Text,
  leb, ◌==◌, if◌then◌else◌,
}

abbrev pub is_digit : ℕ → Bool
is_digit c = leb b'0' c && leb c b'9'

pub record Split : Type 0 where
  pub taken : Text
  pub rest : Text

abbrev pub push : ℕ → Split → Split
push c r = record { taken = c ∷ r.taken; rest = r.rest }

abbrev pub nothing : Text → Split
nothing s = record { taken = []; rest = s }

-- `\d*`
unfoldable pub span_digits : Text → Split
span_digits [] = nothing []
span_digits (c ∷ s) = if is_digit c then push c (span_digits s) else nothing (c ∷ s)

-- `0|[1-9]\d*`
unfoldable pub integer_part : Text → Option Split
unfolding span_digits
integer_part [] = none
integer_part (c ∷ s) =
    if c == b'0'
    then some (record { taken = c ∷ []; rest = s })
    else if is_digit c
    then some (push c (span_digits s))
    else none

abbrev pub is_nil : Text → Bool
is_nil [] = true
is_nil (_ ∷ _) = false

-- a group that needs one digit at least, and is left out otherwise
abbrev pub digits_or : Text → Text → Text → Split
digits_or mark s whole =
    let r = span_digits s in
    if is_nil r.taken then nothing whole else record { taken = mark ++ r.taken; rest = r.rest }

-- `(?:\.\d+)?`
unfoldable pub fraction_part : Text → Split
unfolding span_digits
fraction_part [] = nothing []
fraction_part (c ∷ s) = if c == b'.' then digits_or (c ∷ []) s (c ∷ s) else nothing (c ∷ s)

-- `[+-]?\d+` behind the letter
abbrev signed_digits : ℕ → Text → Text → Split
signed_digits e [] whole = nothing whole
signed_digits e (c ∷ s) whole =
    if c == b'+' || c == b'-'
    then digits_or (e ∷ c ∷ []) s whole
    else digits_or (e ∷ []) (c ∷ s) whole

-- `(?:[eE][+-]?\d+)?`
unfoldable pub exponent_part : Text → Split
unfolding span_digits
exponent_part [] = nothing []
exponent_part (c ∷ s) =
    if c == b'e' || c == b'E' then signed_digits c s (c ∷ s) else nothing (c ∷ s)

pub record Lexeme : Type 0 where
  pub negative : Bool
  pub whole : Text
  pub fraction : Text
  pub exponent : Text
  pub rest : Text

-- everything behind the sign
unfoldable pub unsigned_lexeme : Bool → Text → Option Lexeme
unsigned_lexeme negative s = elim (integer_part s) [
  | none ↦ none
  | some int ↦
      let fraction = fraction_part int.rest in
      let exponent = exponent_part fraction.rest in
      some (record {
        negative = negative;
        whole = int.taken;
        fraction = fraction.taken;
        exponent = exponent.taken;
        rest = exponent.rest;
      })
]

unfoldable pub number_lexeme : Text → Option Lexeme
number_lexeme [] = none
number_lexeme (c ∷ s) = if c == b'-' then unsigned_lexeme true s else unsigned_lexeme false (c ∷ s)

-- the value of decimal digits, behind those that `acc` stands for
unfoldable pub decimal : ℕ → Text → ℕ
decimal acc [] = acc
decimal acc (c ∷ s) = decimal (acc * 10 + (c - b'0')) s

abbrev pub safe_integer_max : ℕ
safe_integer_max = 2 ^ 53 - 1

-- `!/[.eE]/.test(match[0])`
abbrev pub is_integral : Lexeme → Bool
is_integral l = is_nil l.fraction && is_nil l.exponent
