-- ===== src/Json/Shorter.antt =====
-- What each part of the strict parser leaves is shorter than what it read.
use memeloop_token_center_mi.Json.Parser.{or_literal, Value, behind, number_value, number, scalar}
use memeloop_token_center_mi.Common.{
  ℕ, suc, ◌≤◌, ◌<◌, ◌≡◌, refl, Bool, true, false, Option, none, some, [], ◌∷◌, Text, units, ◌==◌,
  ok, err, length, arith, Bool-cases, inl, inr, Option-cases,
}
use memeloop_token_center_mi.Json.Strings.{
  out_of_fuel, Parsed, quote, skip_space, string, scan, Scanned, scanned_string,
}
use memeloop_token_center_mi.Json.Number.{
  Lexeme, number_lexeme, span_digits, integer_part, fraction_part, exponent_part, unsigned_lexeme,
}

-- The outcome is not a lack of fuel, and what it leaves is shorter than `n`.
abbrev pub Shorter : {A : Type 0} → ℕ → Parsed A → Type 0
Shorter n (ok (a, rest)) = length rest < n
Shorter n (err out_of_fuel) = ⊥
Shorter n (err _) = Unit

abbrev ScanShorter : ℕ → Option Scanned → Type 0
ScanShorter n none = Unit
ScanShorter n (some r) = length r.rest < n

pub length-skip_space : (s : Text) → length (skip_space s) ≤ length s
unfolding skip_space
length-skip_space [] = omega arith
length-skip_space (c ∷ s) = ground (arith, length-skip_space s)

scan-Shorter : (b : Bool) (s : Text) → ScanShorter (length s) (scan b s)
unfolding scan
scan-Shorter true [] = tt
scan-Shorter false [] = tt
scan-Shorter true (c ∷ s) = ground (arith, scan-Shorter false s)
scan-Shorter false (c ∷ s) = ground (arith, scan-Shorter false s, scan-Shorter true s)

scanned_string-Shorter :
    (n : ℕ) (o : Option Scanned) → ScanShorter n o → Shorter n (scanned_string o)
unfolding scanned_string
scanned_string-Shorter n none h = tt
scanned_string-Shorter n (some r) h = ground arith

ScanShorter-mono : (n : ℕ) (o : Option Scanned) → ScanShorter n o → ScanShorter (suc n) o
ScanShorter-mono n none h = tt
ScanShorter-mono n (some r) h = omega arith

pub string-Shorter : (s : Text) → Shorter (length s) (string s)
unfolding string
string-Shorter [] = tt
string-Shorter (c ∷ s) = elim (Bool-cases (c == quote)) [
  | inl yes' ↦ rw yes' (
      scanned_string-Shorter (suc (length s)) (scan false s)
        (ScanShorter-mono (length s) (scan false s) (scan-Shorter false s)))
  | inr no' ↦ rw no' tt
]

behind-le : (l s r : Text) → behind l s ≡ some r → length r ≤ length s
unfolding behind
behind-le [] s r h = ground arith
behind-le (a ∷ l) [] r h = cc
behind-le (a ∷ l) (c ∷ s) r h = ground (arith, behind-le l s r)

span_digits-le : (s : Text) → length (span_digits s).rest ≤ length s
unfolding span_digits
span_digits-le [] = omega arith
span_digits-le (c ∷ s) = ground (arith, span_digits-le s)

integer_part-lt : (s : Text) → (r : _) → integer_part s ≡ some r → length r.rest < length s
unfolding integer_part
integer_part-lt [] r h = cc
integer_part-lt (c ∷ s) r h = ground (arith, span_digits-le s)

fraction_part-le : (s : Text) → length (fraction_part s).rest ≤ length s
unfolding fraction_part
fraction_part-le [] = omega arith
fraction_part-le (c ∷ s) = ground (arith, span_digits-le s)

exponent_part-le : (s : Text) → length (exponent_part s).rest ≤ length s
unfolding exponent_part
exponent_part-le [] = omega arith
exponent_part-le (c ∷ []) = ground arith
exponent_part-le (c ∷ d ∷ s) = ground (arith, span_digits-le s, span_digits-le (d ∷ s))

unsigned_lexeme-lt :
    (b : Bool) (s : Text) (l : Lexeme) → unsigned_lexeme b s ≡ some l → length l.rest < length s
unfolding unsigned_lexeme
unsigned_lexeme-lt b s l h = elim (Option-cases (integer_part s)) [
  | inl e ↦ cc (rw (e, unsigned_lexeme) at h)
  | inr (found, e) ↦ ground (
    arith,
    e,
    integer_part-lt s found e,
    fraction_part-le found.rest,
    exponent_part-le (fraction_part found.rest).rest,
  )
]

number_lexeme-lt : (s : Text) (l : Lexeme) → number_lexeme s ≡ some l → length l.rest < length s
unfolding number_lexeme
number_lexeme-lt [] l h = cc
number_lexeme-lt (c ∷ s) l h =
    ground (arith, unsigned_lexeme-lt true s l, unsigned_lexeme-lt false (c ∷ s) l)

number-Shorter :
    (is_finite : Bool → Text → Bool) (n : ℕ) (o : Option Lexeme)
    → ((l : Lexeme) → o ≡ some l → length l.rest < n)
    → Shorter n (number is_finite o)
unfolding number number_value
number-Shorter is_finite n none h = tt
number-Shorter is_finite n (some l) h = ground (arith, h l refl)

pub behind-lt : (a : ℕ) (l s r : Text) → behind (a ∷ l) s ≡ some r → length r < length s
unfolding behind
behind-lt a l [] r h = cc
behind-lt a l (c ∷ s) r h = ground (arith, behind-le l s r)

pub or_literal-Shorter :
    (n : ℕ) (o : Option Text) (v : Value) (m : Parsed Value)
    → ((r : Text) → o ≡ some r → length r < n)
    → Shorter n m
    → Shorter n (or_literal o v m)
or_literal-Shorter n none v m h k = k
or_literal-Shorter n (some r) v m h k = h r refl

pub scalar-Shorter :
    (is_finite : Bool → Text → Bool) (s : Text) → Shorter (length s) (scalar is_finite s)
unfolding scalar
scalar-Shorter is_finite s = or_literal-Shorter _ (behind (units "true") s) _ _ (behind-lt _ _ s) (
    or_literal-Shorter _ (behind (units "false") s) _ _ (behind-lt _ _ s) (
      or_literal-Shorter _ (behind (units "null") s) _ _ (behind-lt _ _ s)
        (number-Shorter is_finite _ _ (number_lexeme-lt s))))
