-- ===== src/Json/RoundTrip/Steps.antt =====
-- One step of each loop of the parser, from what the parts of the text give.
use memeloop_token_center_mi.Json.Print.{
  IsExact, body_text, digits_of, print, print_items, print_more_items, print_fields,
  print_more_fields, print_string, print_int,
}
use memeloop_token_center_mi.Common.{
  ℕ, suc, ◌+◌, ◌<◌, ◌≤◌, ◌≡◌, refl, Bool, true, false, List, [], ◌∷◌, Text, units, none, arith, ok,
  contains, length, length-append,
}
use memeloop_token_center_mi.Json.Strings.{Parsed, quote, skip_space, is_space}
use memeloop_token_center_mi.Json.Number.{number_lexeme}
use memeloop_token_center_mi.Json.Parser.{
  Value, null, bool, int, real, str, arr, obj, Items, nil, cons, Fields, end, field, behind, expect,
  number, scalar, elements_end, members_end, elements, members, array, object, by_head, value,
}
use memeloop_token_center_mi.Json.Ensured.{Apart, text_eq_sym}
use memeloop_token_center_mi.Json.RoundTrip.Strings.{string-print_string}
use memeloop_token_center_mi.Json.RoundTrip.Numbers.{OtherHead, print_int-OtherHead}

skip_space-OtherHead : (s : Text) → OtherHead s → skip_space s ≡ s
unfolding skip_space
skip_space-OtherHead [] h = refl
skip_space-OtherHead (c ∷ s) h = ground arith

behind-OtherHead : (s : Text) → OtherHead s → behind (units "]") s ≡ none
unfolding behind
behind-OtherHead [] h = refl
behind-OtherHead (c ∷ s) h = ground arith

pub by_head-OtherHead :
    (is_finite : Bool → Text → Bool) (value : Text → Parsed Value) (s : Text)
    → OtherHead s
    → by_head is_finite value s ≡ number is_finite (number_lexeme s)
unfolding by_head scalar behind
by_head-OtherHead is_finite value [] h = absurd h
by_head-OtherHead is_finite value (c ∷ s) h = ground arith

-- No value begins with white space.
pub skip_space-print :
    (v : Value) (rest : Text) → IsExact v → skip_space (print v rest) ≡ print v rest
unfolding skip_space print is_space IsExact
skip_space-print null rest u = refl
skip_space-print (bool true) rest u = refl
skip_space-print (bool false) rest u = refl
skip_space-print (int negative n) rest u =
    skip_space-OtherHead (print_int negative n rest) (print_int-OtherHead negative n rest)
skip_space-print (real negative s) rest u = absurd u
skip_space-print (str s) rest u = refl
skip_space-print (arr vs) rest u = refl
skip_space-print (obj fs) rest u = refl

-- No value begins with a closing bracket.
pub behind-print : (v : Value) (rest : Text) → IsExact v → behind (units "]") (print v rest) ≡ none
unfolding behind print IsExact
behind-print null rest u = refl
behind-print (bool true) rest u = refl
behind-print (bool false) rest u = refl
behind-print (int negative n) rest u =
    behind-OtherHead (print_int negative n rest) (print_int-OtherHead negative n rest)
behind-print (real negative s) rest u = absurd u
behind-print (str s) rest u = refl
behind-print (arr vs) rest u = refl
behind-print (obj fs) rest u = refl

module _ (value : Text → Parsed Value) where
  pub array-of :
      (s rest : Text) (vs : Items)
      → skip_space s ≡ s
      → behind (units "]") s ≡ none
      → elements value (suc (length s)) s ≡ ok (vs, rest)
      → array value s ≡ ok (arr vs, rest)
  unfolding array
  array-of s rest vs h k e = rw (h, k, e)

  pub object-of :
      (s rest : Text) (fs : Fields)
      → skip_space s ≡ s
      → behind (units "}") s ≡ none
      → members value (suc (length s)) [] s ≡ ok (fs, rest)
      → object value s ≡ ok (obj fs, rest)
  unfolding object
  object-of s rest fs h k e = rw (h, k, e)

  pub elements-of :
      (fuel : ℕ) (s t rest : Text) (v : Value) (vs : Items)
      → value s ≡ ok (v, t)
      → elements_end v (skip_space t) (elements value fuel) ≡ ok (vs, rest)
      → elements value (suc fuel) s ≡ ok (vs, rest)
  unfolding elements
  elements-of fuel s t rest v vs h k = rw h k

  pub elements_end-comma :
      (fuel : ℕ) (s rest : Text) (v : Value) (vs : Items)
      → elements value fuel s ≡ ok (vs, rest)
      → elements_end v (skip_space (b',' ∷ s)) (elements value fuel) ≡ ok (cons v vs, rest)
  unfolding elements_end skip_space
  elements_end-comma fuel s rest v vs h = rw h

  pub members-of :
      (fuel : ℕ) (keys : List Text) (k s t rest : Text) (v : Value) (fs : Fields)
      → contains k keys ≡ false
      → value s ≡ ok (v, t)
      → members_end k v (skip_space t) (members value fuel (k ∷ keys)) ≡ ok (fs, rest)
      → members value (suc fuel) keys (print_string k (b':' ∷ s)) ≡ ok (fs, rest)
  unfolding members skip_space expect
  members-of fuel keys k s t rest v fs new h e =
      rw (string-print_string k (b':' ∷ s)) (rw new (rw h e))

  pub members_end-comma :
      (fuel : ℕ) (keys : List Text) (k s rest : Text) (v : Value) (fs : Fields)
      → members value fuel keys s ≡ ok (fs, rest)
      → members_end k v (skip_space (b',' ∷ s)) (members value fuel keys) ≡ ok (field k v fs, rest)
  unfolding members_end skip_space
  members_end-comma fuel keys k s rest v fs h = rw h

-- A key apart from those before it.
pub Apart-head :
    (keys : List Text) (k : Text) (v : Value) (fs : Fields)
    → Apart keys (field k v fs)
    → contains k keys ≡ false
Apart-head [] k v fs h = refl
Apart-head (j ∷ keys) k v fs h = ground (arith, text_eq_sym j k, Apart-head keys k v fs h.1)

pub Apart-tail :
    (keys : List Text) (k : Text) (v : Value) (fs : Fields)
    → Apart keys (field k v fs)
    → Apart keys fs
Apart-tail [] k v fs h = tt
Apart-tail (j ∷ keys) k v fs h = (ground arith, Apart-tail keys k v fs h.1)

unfoldable pub count_items : Items → ℕ
count_items nil = 0
count_items (cons v vs) = suc (count_items vs)

unfoldable pub count_fields : Fields → ℕ
count_fields end = 0
count_fields (field k v fs) = suc (count_fields fs)

pub length-print_string : (k rest : Text) → length rest ≤ length (print_string k rest)
length-print_string k rest = omega (arith, length-append (body_text k) (quote ∷ rest))

length-print_int :
    (negative : Bool) (n : ℕ) (rest : Text) → length rest ≤ length (print_int negative n rest)
length-print_int true n rest = omega (arith, length-append (digits_of (suc n) n) rest)
length-print_int false n rest = omega (arith, length-append (digits_of (suc n) n) rest)

mutual
  unfolding print print_items print_more_items print_fields print_more_fields count_items
      count_fields

  pub length-print : (v : Value) (rest : Text) → length rest ≤ length (print v rest)
  length-print null rest = omega arith
  length-print (bool true) rest = omega arith
  length-print (bool false) rest = omega arith
  length-print (int negative n) rest = length-print_int negative n rest
  length-print (real true s) rest = omega (arith, length-append s rest)
  length-print (real false s) rest = omega (arith, length-append s rest)
  length-print (str s) rest = length-print_string s rest
  length-print (arr nil) rest = omega arith
  length-print (arr (cons v vs)) rest =
      omega (arith, length-print v (print_more_items vs rest), count-print_more_items vs rest)
  length-print (obj end) rest = omega arith
  length-print (obj (field k v fs)) rest = omega (
    arith,
    length-print_string k (b':' ∷ print v (print_more_fields fs rest)),
    length-print v (print_more_fields fs rest),
    count-print_more_fields fs rest,
  )

  pub count-print_more_items :
      (vs : Items) (rest : Text) → count_items vs + length rest < length (print_more_items vs rest)
  count-print_more_items nil rest = omega arith
  count-print_more_items (cons v vs) rest =
      omega (arith, length-print v (print_more_items vs rest), count-print_more_items vs rest)

  pub count-print_more_fields :
      (fs : Fields) (rest : Text)
      → count_fields fs + length rest < length (print_more_fields fs rest)
  count-print_more_fields end rest = omega arith
  count-print_more_fields (field k v fs) rest = omega (
    arith,
    length-print_string k (b':' ∷ print v (print_more_fields fs rest)),
    length-print v (print_more_fields fs rest),
    count-print_more_fields fs rest,
  )
