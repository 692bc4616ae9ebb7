-- ===== src/Routes/Strings.antt =====
-- The operations of JavaScript strings that the route parser calls, on UTF-16 code units.
use memeloop_token_center_mi.Common.{
  contains, ℕ, ◌+◌, Bool, true, false, ◌&&◌, ◌||◌, Option, none, some, List, [], ◌∷◌, Text, text_eq,
  ltb, leb, ◌==◌, if◌then◌else◌,
}
use mathlib.Core.List.{reverse}
use memeloop_token_center_mi.Json.Parser.{behind}

abbrev pub is_some_text : Option Text → Bool
is_some_text none = false
is_some_text (some _) = true

-- `s.startsWith(p)`
unfoldable pub starts_with : Text → Text → Bool
starts_with p s = is_some_text (behind p s)

-- `s.endsWith(p)`
unfoldable pub ends_with : Text → Text → Bool
ends_with p [] = text_eq p []
ends_with p (c ∷ s) = text_eq p (c ∷ s) || ends_with p s

-- what stands behind the first occurrence of `p`, as `indexOf` finds it
unfoldable pub find_behind : Text → Text → Option Text
find_behind p [] = behind p []
find_behind p (c ∷ s) =
    let later = find_behind p s in elim (behind p (c ∷ s)) [ some rest ↦ some rest | none ↦ later ]

-- `s.includes(p)`
unfoldable pub includes : Text → Text → Bool
includes p s = is_some_text (find_behind p s)

-- adds a unit to the first part
abbrev pub push_first : ℕ → List Text → List Text
push_first c [] = (c ∷ []) ∷ []
push_first c (p ∷ ps) = (c ∷ p) ∷ ps

-- `s.split(mark)` for a mark of one unit
unfoldable pub split : ℕ → Text → List Text
split mark [] = [] ∷ []
split mark (c ∷ s) =
    let parts = split mark s in if c == mark then [] ∷ parts else push_first c parts

-- `left < right`, by code units
unfoldable pub less : Text → Text → Bool
less _ [] = false
less [] (_ ∷ _) = true
less (a ∷ s) (b ∷ t) = ltb a b || (a == b && less s t)

-- white space and line ends, as `trim` takes them
unfoldable pub is_blank : ℕ → Bool
is_blank c =
    (leb 9 c && leb c 13)
    || c == 0x20
    || c == 0xa0
    || c == 0x1680
    || (leb 0x2000 c && leb c 0x200a)
    || c == 0x2028
    || c == 0x2029
    || c == 0x202f
    || c == 0x205f
    || c == 0x3000
    || c == 0xfeff

unfoldable pub trim_start : (ℕ → Bool) → Text → Text
trim_start p [] = []
trim_start p (c ∷ s) = if p c then trim_start p s else c ∷ s

abbrev pub trim_both : (ℕ → Bool) → Text → Text
trim_both p s = reverse (trim_start p (reverse (trim_start p s)))

-- `s.trim()`
unfoldable pub trim : Text → Text
unfolding trim_start is_blank
trim s = trim_both is_blank s

abbrev is_high : ℕ → Bool
is_high c = leb 0xd800 c && leb c 0xdbff

abbrev is_low : ℕ → Bool
is_low c = leb 0xdc00 c && leb c 0xdfff

-- bytes of one unit in UTF-8; a surrogate that stands alone becomes U+FFFD
abbrev unit_bytes : ℕ → ℕ
unit_bytes c = if ltb c 0x80 then 1 else if ltb c 0x800 then 2 else 3

-- `Buffer.byteLength(s)`: the flag says that the unit before was a high surrogate that has been
-- counted as three bytes, so that a low one behind it makes four
byte_count : Bool → Text → ℕ
byte_count high [] = 0
byte_count high (c ∷ s) =
    let rest = byte_count (is_high c) s in
    let after_pair = byte_count false s in
    if high && is_low c then 1 + after_pair else unit_bytes c + rest

unfoldable pub byte_length : Text → ℕ
unfolding byte_count
byte_length s = byte_count false s

-- insertion into a sorted list, before equal keys: what is inserted came first
unfoldable pub insert {ℓ} : {A : Type ℓ} → (A → Text) → A → List A → List A
insert key a [] = a ∷ []
insert key a (b ∷ bs) =
    let later = b ∷ insert key a bs in if less (key b) (key a) then later else a ∷ b ∷ bs

-- `sort(compare)` by a key, which is stable
unfoldable pub sort_by {ℓ} : {A : Type ℓ} → (A → Text) → List A → List A
unfolding insert less
sort_by key [] = []
sort_by key (a ∷ rest) = insert key a (sort_by key rest)

-- `new Set(texts)`, in the order of first insertion, behind those already seen
unfoldable pub distinct_from : List Text → List Text → List Text
distinct_from seen [] = []
distinct_from seen (t ∷ ts) =
    let fresh = t ∷ distinct_from (t ∷ seen) ts in
    let again = distinct_from seen ts in if contains t seen then again else fresh

abbrev pub distinct : List Text → List Text
distinct ts = distinct_from [] ts
