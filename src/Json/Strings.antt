-- ===== src/Json/Strings.antt =====
-- The string literals of `parseStrictJson`: `whitespace`, `string`, and what `JSON.parse` makes of an
-- escaped literal. The cursor into the source is the rest of the text.
use memeloop_token_center_mi.Common.{
  ℕ, zero, suc, ◌+◌, ◌-◌, ◌*◌, Bool, true, false, ◌&&◌, ◌||◌, Option, none, some, [], ◌∷◌, Text,
  ltb, leb, ◌==◌, if◌then◌else◌, Result, ok, err,
}

pub data JsonError : Type 0 where
  invalid duplicate_key out_of_fuel : JsonError

abbrev pub Parsed : Type 0 → Type 0
Parsed A = Result JsonError (A × Text)

abbrev pub quote : ℕ
quote = b'"'

abbrev pub backslash : ℕ
backslash = 0x5c

unfoldable pub is_space : ℕ → Bool
is_space c = c == 0x20 || c == 0x09 || c == 0x0a || c == 0x0d

unfoldable pub skip_space : Text → Text
unfolding is_space
skip_space [] = []
skip_space (c ∷ s) = if is_space c then skip_space s else c ∷ s

pub record Scanned : Type 0 where
  pub body : Text
  pub escaped : Bool
  pub rest : Text

abbrev pub prepend : ℕ → Bool → Option Scanned → Option Scanned
prepend c escape none = none
prepend c escape (some r) =
    some (record { body = c ∷ r.body; escaped = escape || r.escaped; rest = r.rest })

-- The loop over `stringBoundary`, from behind the opening quote; the flag says that the last unit
-- was a backslash, behind which the next boundary is sought one unit later.
unfoldable pub scan : Bool → Text → Option Scanned
scan _ [] = none
scan true (c ∷ s) = prepend c false (scan false s)
scan false (c ∷ s) =
    let plain = prepend c false (scan false s) in
    let escape = prepend c true (scan true s) in
    if c == quote
    then some (record { body = []; escaped = false; rest = s })
    else if c == backslash
    then escape
    else if ltb c 0x20
    then none
    else plain

unfoldable pub hex_digit : ℕ → Option ℕ
hex_digit c =
    if leb b'0' c && leb c b'9'
    then some (c - b'0')
    else if leb b'a' c && leb c b'f'
    then some (c - b'a' + 10)
    else if leb b'A' c && leb c b'F'
    then some (c - b'A' + 10)
    else none

-- what stands behind the backslash of a two-unit escape
unfoldable pub simple_escape : ℕ → Option ℕ
simple_escape c =
    if c == quote || c == backslash || c == b'/'
    then some c
    else if c == b'b'
    then some 0x08
    else if c == b'f'
    then some 0x0c
    else if c == b'n'
    then some 0x0a
    else if c == b'r'
    then some 0x0d
    else if c == b't'
    then some 0x09
    else none

-- `hex n acc`: inside an escape of four hexadecimal digits, `suc n` of them still to come
pub data Mode : Type 0 where
  plain escape : Mode
  hex : ℕ → ℕ → Mode

abbrev pub emit : ℕ → Option (Mode × Text)
emit c = some (plain, c ∷ [])

abbrev hex_step : ℕ → ℕ → ℕ → Option (Mode × Text)
hex_step zero acc d = emit (acc * 16 + d)
hex_step (suc n) acc d = some (hex n (acc * 16 + d), [])

unfoldable pub unescape_step : Mode → ℕ → Option (Mode × Text)
unfolding hex_digit simple_escape
unescape_step plain c =
    if c == backslash then some (escape, []) else if c == quote || ltb c 0x20 then none else emit c
unescape_step escape c =
    if c == b'u'
    then some (hex 3 0, [])
    else elim (simple_escape c) [ none ↦ none | some e ↦ emit e ]
unescape_step (hex n acc) c = elim (hex_digit c) [ none ↦ none | some d ↦ hex_step n acc d ]

abbrev pub emitted : Text → Option Text → Option Text
emitted out none = none
emitted [] (some s) = some s
emitted (c ∷ _) (some s) = some (c ∷ s)

-- `JSON.parse` of the literal whose inner text is given
unfoldable pub unescape : Mode → Text → Option Text
unfolding unescape_step
unescape plain [] = some []
unescape escape [] = none
unescape (hex _ _) [] = none
unescape m (c ∷ s) = elim (unescape_step m c) [
  | none ↦ none
  | some (m', out) ↦ emitted out (unescape m' s)
]

unfoldable pub scanned_string : Option Scanned → Parsed Text
unfolding unescape
scanned_string none = err invalid
scanned_string (some r) =
    if r.escaped
    then (elim (unescape plain r.body) [ none ↦ err invalid | some t ↦ ok (t, r.rest) ])
    else ok (r.body, r.rest)

unfoldable pub string : Text → Parsed Text
unfolding scan scanned_string
string [] = err invalid
string (c ∷ s) = if c == quote then scanned_string (scan false s) else err invalid
