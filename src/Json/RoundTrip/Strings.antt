-- ===== src/Json/RoundTrip/Strings.antt =====
-- A printed string literal is read back.
use mathlib.Core.List.{append_assoc}
use memeloop_token_center_mi.Common.{
  ℕ, ◌/◌, ◌%◌, ◌<◌, ◌≡◌, refl, Bool, false, ◌||◌, [], ◌∷◌, ◌++◌, Text, ltb, ◌==◌, Option, some,
  arith, Bool-cases, inl, inr, ok, ap, ◌∙◌,
}
use memeloop_token_center_mi.Json.Strings.{
  quote, backslash, Scanned, scan, hex_digit, simple_escape, plain, unescape_step, unescape,
  scanned_string, string,
}
use memeloop_token_center_mi.Json.Print.{hex_unit, unit_text, body_text, print_string}

-- whether a literal has escapes
pub needs_escape : Text → Bool
needs_escape [] = false
needs_escape (c ∷ s) = (c == quote || c == backslash || ltb c 0x20) || needs_escape s

abbrev scanned : Text → Bool → Text → Option Scanned
scanned body escaped rest = some (record { body = body; escaped = escaped; rest = rest })

scan-unit :
    (c : ℕ) (s body : Text) (escaped : Bool) (rest : Text)
    → scan false s ≡ scanned body escaped rest
    → scan false (unit_text c ++ s)
      ≡ scanned (unit_text c ++ body) ((c == quote || c == backslash || ltb c 0x20) || escaped) rest
unfolding scan
scan-unit c s body escaped rest h = ground arith

scan-body_text :
    (s rest : Text)
    → scan false (body_text s ++ quote ∷ rest) ≡ scanned (body_text s) (needs_escape s) rest
unfolding body_text needs_escape
scan-body_text [] rest = unfold scan in refl
scan-body_text (c ∷ s) rest = rw (append_assoc (unit_text c) (body_text s) (quote ∷ rest)) (
    scan-unit c (body_text s ++ quote ∷ rest) (body_text s) (needs_escape s) rest
      (scan-body_text s rest))

hex_digit-hex_unit : (d : ℕ) → d < 16 → hex_digit (hex_unit d) ≡ some d
unfolding hex_digit
hex_digit-hex_unit d h = ground arith

unescape-unit :
    (c : ℕ) (s t : Text)
    → unescape plain s ≡ some t
    → unescape plain (unit_text c ++ s) ≡ some (c ∷ t)
unfolding unescape unescape_step simple_escape
unescape-unit c s t h =
    ground (arith, hex_digit-hex_unit (c / 16), hex_digit-hex_unit (c % 16), hex_digit-hex_unit 0)

unescape-body_text : (s : Text) → unescape plain (body_text s) ≡ some s
unfolding body_text
unescape-body_text [] = unfold unescape in refl
unescape-body_text (c ∷ s) = unescape-unit c (body_text s) s (unescape-body_text s)

body_text-plain : (s : Text) → needs_escape s ≡ false → body_text s ≡ s
unfolding body_text needs_escape
body_text-plain [] h = refl
body_text-plain (c ∷ s) h = ground (arith, body_text-plain s)

scanned_string-body_text :
    (s rest : Text) → scanned_string (scanned (body_text s) (needs_escape s) rest) ≡ ok (s, rest)
scanned_string-body_text s rest = elim (Bool-cases (needs_escape s)) [
  | inl special ↦ rw special (unfold scanned_string in rw (unescape-body_text s))
  | inr ordinary ↦ rw ordinary (unfold scanned_string in rw (body_text-plain s ordinary))
]

-- The string parser reads back a printed literal, and stops behind it.
pub string-print_string : (s rest : Text) → string (print_string s rest) ≡ ok (s, rest)
unfolding string
string-print_string s rest =
    ap scanned_string (scan-body_text s rest) ∙ scanned_string-body_text s rest
