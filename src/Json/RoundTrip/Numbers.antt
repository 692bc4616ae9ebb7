-- ===== src/Json/RoundTrip/Numbers.antt =====
-- A printed integer is read back.
use memeloop_token_center_mi.Json.Parser.{number, number_value, int}
use memeloop_token_center_mi.Json.Number.{
  safe_integer_max, Lexeme, push, nothing, is_digit, span_digits, integer_part, fraction_part,
  exponent_part, unsigned_lexeme, number_lexeme, decimal,
}
use memeloop_token_center_mi.Json.Strings.{is_space, quote}
use memeloop_token_center_mi.Common.{
  ℕ, zero, suc, ◌+◌, ◌-◌, ◌/◌, ◌%◌, ◌*◌, ◌<◌, ◌≤◌, ◌≡◌, ◌≢◌, refl, Bool, true, false, [], ◌∷◌, ◌++◌,
  Text, ltb, ◌==◌, Option, some, arith, Bool-cases, inl, inr, ok, ap, ◌∙◌, All,
}
use memeloop_token_center_mi.Json.Print.{digits_of, print_int}

-- A text that a number cannot go on with.
abbrev pub Stops : Text → Type 0
Stops [] = Unit
Stops (c ∷ s) = (is_digit c ≡ false) × (c ≢ b'.') × (c ≢ b'e') × (c ≢ b'E')

abbrev pub AreDigits : Text → Type 0
AreDigits = All (λ c. is_digit c ≡ true)

digits-append : (xs ys : Text) → AreDigits xs → AreDigits ys → AreDigits (xs ++ ys)
digits-append [] ys h k = k
digits-append (x ∷ xs) ys h k = (h.0, digits-append xs ys h.1 k)

pub digits_of-AreDigits : (fuel n : ℕ) → AreDigits (digits_of fuel n)
unfolding digits_of
digits_of-AreDigits zero n = tt
digits_of-AreDigits (suc fuel) n = elim (Bool-cases (ltb n 10)) [
  | inl small ↦ rw small (ground arith, tt)
  | inr large ↦ rw large (
      digits-append (digits_of fuel (n / 10)) _ (digits_of-AreDigits fuel (n / 10))
        (ground arith, tt))
]

decimal-append :
    (acc : ℕ) (xs : Text) (d : ℕ) → decimal acc (xs ++ d ∷ []) ≡ decimal acc xs * 10 + (d - b'0')
unfolding decimal
decimal-append acc [] d = refl
decimal-append acc (x ∷ xs) d = decimal-append (acc * 10 + (x - b'0')) xs d

pub decimal-digits_of : (fuel n : ℕ) → n < fuel → decimal 0 (digits_of fuel n) ≡ n
unfolding digits_of
decimal-digits_of zero n h = absurd (omega arith)
decimal-digits_of (suc fuel) n h = elim (Bool-cases (ltb n 10)) [
  | inl small ↦ rw small (unfold decimal in omega arith)
  | inr large ↦ rw large (
      decimal-append 0 (digits_of fuel (n / 10)) (n % 10 + b'0')
      ∙ omega (arith, decimal-digits_of fuel (n / 10) (ground arith)))
]

-- the first digit of a number other than 0 is not a 0
abbrev StartsWell : Text → Type 0
StartsWell [] = ⊥
StartsWell (c ∷ s) = c ≢ b'0'

StartsWell-append : (xs ys : Text) → StartsWell xs → StartsWell (xs ++ ys)
StartsWell-append [] ys h = absurd h
StartsWell-append (x ∷ xs) ys h = h

digits_of-StartsWell : (fuel n : ℕ) → n < fuel → n ≢ 0 → StartsWell (digits_of fuel n)
unfolding digits_of
digits_of-StartsWell zero n h k = absurd (omega arith)
digits_of-StartsWell (suc fuel) n h k = elim (Bool-cases (ltb n 10)) [
  | inl small ↦ rw small (λ e. k (omega arith))
  | inr large ↦ rw large (
      StartsWell-append (digits_of fuel (n / 10)) _
        (digits_of-StartsWell fuel (n / 10) (ground arith) (λ e. ground arith)))
]

span_digits-Stops : (rest : Text) → Stops rest → span_digits rest ≡ nothing rest
unfolding span_digits
span_digits-Stops [] h = refl
span_digits-Stops (c ∷ s) h = ground arith

span_digits-append :
    (ds rest : Text)
    → AreDigits ds
    → Stops rest
    → span_digits (ds ++ rest) ≡ record { taken = ds; rest = rest }
unfolding span_digits
span_digits-append [] rest h k = span_digits-Stops rest k
span_digits-append (d ∷ ds) rest h k = rw h.0 (ap (push d) (span_digits-append ds rest h.1 k))

integer_part-digits :
    (ds rest : Text)
    → AreDigits ds
    → StartsWell ds
    → Stops rest
    → integer_part (ds ++ rest) ≡ some (record { taken = ds; rest = rest })
unfolding integer_part
integer_part-digits [] rest h w k = absurd w
integer_part-digits (d ∷ ds) rest h w k = ground (arith, span_digits-append ds rest h.1 k)

integer_part-digits_of :
    (n : ℕ) (rest : Text)
    → Stops rest
    → integer_part (digits_of (suc n) n ++ rest)
      ≡ some (record { taken = digits_of (suc n) n; rest = rest })
integer_part-digits_of zero rest k = unfold digits_of integer_part in refl
integer_part-digits_of (suc n) rest k =
    integer_part-digits (digits_of (suc (suc n)) (suc n)) rest
      (digits_of-AreDigits (suc (suc n)) (suc n))
      (digits_of-StartsWell (suc (suc n)) (suc n) (omega arith) (λ e. omega arith)) k

fraction_part-Stops : (rest : Text) → Stops rest → fraction_part rest ≡ nothing rest
unfolding fraction_part
fraction_part-Stops [] h = refl
fraction_part-Stops (c ∷ s) h = ground arith

exponent_part-Stops : (rest : Text) → Stops rest → exponent_part rest ≡ nothing rest
unfolding exponent_part
exponent_part-Stops [] h = refl
exponent_part-Stops (c ∷ s) h = ground arith

abbrev lexeme : Bool → ℕ → Text → Option Lexeme
lexeme negative n rest = some (record {
  negative = negative;
  whole = digits_of (suc n) n;
  fraction = [];
  exponent = [];
  rest = rest;
})

unsigned_lexeme-parts :
    (negative : Bool) (s ds rest : Text)
    → integer_part s ≡ some (record { taken = ds; rest = rest })
    → fraction_part rest ≡ nothing rest
    → exponent_part rest ≡ nothing rest
    → unsigned_lexeme negative s
      ≡ some (record { negative = negative; whole = ds; fraction = []; exponent = []; rest = rest })
unfolding unsigned_lexeme
unsigned_lexeme-parts negative s ds rest h k l = rw (h, unsigned_lexeme) (ground arith)

unsigned_lexeme-digits :
    (negative : Bool) (n : ℕ) (rest : Text)
    → Stops rest
    → unsigned_lexeme negative (digits_of (suc n) n ++ rest) ≡ lexeme negative n rest
unsigned_lexeme-digits negative n rest k =
    unsigned_lexeme-parts negative _ (digits_of (suc n) n) rest (integer_part-digits_of n rest k)
      (fraction_part-Stops rest k) (exponent_part-Stops rest k)

-- how the digits of a number begin
abbrev BeginsWithDigit : Text → Type 0
BeginsWithDigit [] = ⊥
BeginsWithDigit (c ∷ s) = is_digit c ≡ true

BeginsWithDigit-append : (xs ys : Text) → BeginsWithDigit xs → BeginsWithDigit (xs ++ ys)
BeginsWithDigit-append [] ys h = absurd h
BeginsWithDigit-append (x ∷ xs) ys h = h

pub digits_of-begins : (n : ℕ) (fuel : ℕ) → n < fuel → BeginsWithDigit (digits_of fuel n)
unfolding digits_of
digits_of-begins n zero h = absurd (omega arith)
digits_of-begins n (suc fuel) h = elim (Bool-cases (ltb n 10)) [
  | inl small ↦ rw small (ground arith)
  | inr large ↦ rw large (
      BeginsWithDigit-append (digits_of fuel (n / 10)) _
        (digits_of-begins (n / 10) fuel (ground arith)))
]

number_lexeme-unsigned : (s : Text) → BeginsWithDigit s → number_lexeme s ≡ unsigned_lexeme false s
unfolding number_lexeme
number_lexeme-unsigned [] h = absurd h
number_lexeme-unsigned (c ∷ s) h = ground arith

number_lexeme-print_int :
    (negative : Bool) (n : ℕ) (rest : Text)
    → Stops rest
    → number_lexeme (print_int negative n rest) ≡ lexeme negative n rest
number_lexeme-print_int true n rest k = unfold number_lexeme in unsigned_lexeme-digits true n rest k
number_lexeme-print_int false n rest k =
    number_lexeme-unsigned (digits_of (suc n) n ++ rest)
      (BeginsWithDigit-append (digits_of (suc n) n) rest (digits_of-begins n (suc n) (omega arith)))
    ∙ unsigned_lexeme-digits false n rest k

-- The number parser reads back a printed safe integer, and stops behind it.
pub number-print_int :
    (is_finite : Bool → Text → Bool) (negative : Bool) (n : ℕ) (rest : Text)
    → n ≤ safe_integer_max
    → Stops rest
    → number is_finite (number_lexeme (print_int negative n rest)) ≡ ok (int negative n, rest)
unfolding number number_value
number-print_int is_finite negative n rest h k =
    rw (number_lexeme-print_int negative n rest k)
      (ground (arith, decimal-digits_of (suc n) n (omega arith)))

-- The head of a printed integer is none of the units that begin something else.
abbrev pub OtherHead : Text → Type 0
OtherHead [] = ⊥
OtherHead (c ∷ s) =
    (is_space c ≡ false)
    × ((c == quote) ≡ false)
    × ((c == b'{') ≡ false)
    × ((c == b'[') ≡ false)
    × ((b't' == c) ≡ false)
    × ((b'f' == c) ≡ false)
    × ((b'n' == c) ≡ false)
    × ((c == b']') ≡ false)

digit-OtherHead : (s : Text) → BeginsWithDigit s → OtherHead s
unfolding is_space
digit-OtherHead [] h = h
digit-OtherHead (c ∷ s) h = ground arith

pub print_int-OtherHead :
    (negative : Bool) (n : ℕ) (rest : Text) → OtherHead (print_int negative n rest)
print_int-OtherHead true n rest = unfold is_space in ground arith
print_int-OtherHead false n rest =
    digit-OtherHead _
      (BeginsWithDigit-append (digits_of (suc n) n) rest (digits_of-begins n (suc n) (omega arith)))
