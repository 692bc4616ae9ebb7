-- ===== src/Routes/Paths.antt =====
-- Where the relative paths of the accounts lead.
use mathlib.Core.Path.{subst}
use mathlib.Core.List.{append_assoc, append-nil}
use memeloop_token_center_mi.Common.{
  ◌+◌, ℕ, ◌≡◌, ◌≢◌, refl, sym, ap, ◌∙◌, inl, inr, Bool, true, false, ◌||◌, ◌==◌, Option, none, some,
  List, [], ◌∷◌, ◌++◌, Text, units, text_eq, if◌then◌else◌, length, All, arith, Bool-cases, any, ok,
  throw_if, throw_if-eq-ok, >>=-eq-ok, ok_inj,
}
use memeloop_token_center_mi.Json.Parser.{Value, str}
use memeloop_token_center_mi.Routes.Strings.{split, push_first}
use memeloop_token_center_mi.Routes.Schema.{
  relative_auth_path, source_text, is_bad_part, is_bad_path, is_source_text,
}
use memeloop_token_center_mi.Routes.Inputs.{good_parts, source_text_ok}

pub slash : (c : ℕ) → (c == b'/') ≡ true → c ≡ b'/'
slash c h = ground arith

three_false : (a b c : Bool) → (a || b || c) ≡ false → (a ≡ false) × (b ≡ false) × (c ≡ false)
three_false a b c h = ground arith

-- the directory above one that is given by the names that lead to it; the root has none
unfoldable pub parent : List Text → Option (List Text)
parent [] = none
parent (name ∷ []) = some []
parent (name ∷ next ∷ rest) = elim (parent (next ∷ rest)) [
  | none ↦ none
  | some above ↦ some (name ∷ above)
]

-- Where following names leads from a directory, as a file system resolves them: the empty name and "."
-- stay, ".." goes up, which is `none` at the root, and every other name goes down.
unfoldable pub walk : List Text → List Text → Option (List Text)
unfolding parent
walk at [] = some at
walk at (name ∷ rest) =
    let stay = walk at rest in
    let up : Option (List Text) = elim (parent at) [ none ↦ none | some above ↦ walk above rest ] in
    let down = walk (at ++ name ∷ []) rest in
    if length name == 0 || text_eq name (units ".")
    then stay
    else if text_eq name (units "..")
    then up
    else down

-- the names between the slashes
abbrev pub join_slash : List Text → Text
join_slash [] = []
join_slash (name ∷ []) = name
join_slash (name ∷ next ∷ rest) = name ++ b'/' ∷ join_slash (next ∷ rest)

-- A path of names without slashes and backslashes, each of which goes down by one directory, so that
-- following it from the root leads to these names.
abbrev pub GoesDown : Text → Type 0
GoesDown path =
    (names : List Text) × (join_slash names ≡ path)
    × All (λ name. any (λ c. c == b'/') name ≡ false) names
    × (any (λ c. c == 0x5c) path ≡ false)
    × (walk [] names ≡ some names)

walk_plain :
    (at names : List Text)
    → All (λ part. is_bad_part part ≡ false) names
    → walk at names ≡ some (at ++ names)
unfolding walk
walk_plain at [] h = ap some (sym (append-nil at))
walk_plain at (name ∷ rest) (p, h) =
    let (empty, here, above) =
      three_false (length name == 0) (text_eq name (units ".")) (text_eq name (units "..")) p in
    rw (empty, here, above, walk_plain (at ++ name ∷ []) rest h)
      (ap some (append_assoc at (name ∷ []) rest))

join_empty : (parts : List Text) → parts ≢ [] → join_slash ([] ∷ parts) ≡ b'/' ∷ join_slash parts
join_empty [] h = absurd (h refl)
join_empty (p ∷ parts) h = refl

join-push_first :
    (c : ℕ) (parts : List Text) → join_slash (push_first c parts) ≡ c ∷ join_slash parts
join-push_first c [] = refl
join-push_first c (p ∷ []) = refl
join-push_first c (p ∷ q ∷ parts) = refl

push_first_some : (c : ℕ) (parts : List Text) → push_first c parts ≢ []
push_first_some c [] h = cc
push_first_some c (p ∷ parts) h = cc

picked_some :
    (b : Bool) (c : ℕ) (parts : List Text) → (if b then [] ∷ parts else push_first c parts) ≢ []
picked_some true c parts h = cc
picked_some false c parts h = push_first_some c parts h

split_some : (mark : ℕ) (s : Text) → split mark s ≢ []
unfolding split
split_some mark [] h = cc
split_some mark (c ∷ s) h = picked_some (c == mark) c (split mark s) h

-- the names have no slash, and joined by slashes they are the path
Splits : Text → List Text → Type 0
Splits path names =
    (join_slash names ≡ path) × All (λ name. any (λ c. c == b'/') name ≡ false) names

pushed-All :
    (c : ℕ) (parts : List Text)
    → (c == b'/') ≡ false
    → All (λ name. any (λ d. d == b'/') name ≡ false) parts
    → All (λ name. any (λ d. d == b'/') name ≡ false) (push_first c parts)
pushed-All c [] e h = (ground (arith, e), tt)
pushed-All c (p ∷ parts) e (k, h) = (ground (arith, e, k), h)

split-Splits : (path : Text) → Splits path (split b'/' path)
unfolding split Splits
split-Splits [] = (refl, (refl, tt))
split-Splits (c ∷ path) =
    let (joined, apart) = split-Splits path in
    elim (Bool-cases (c == b'/')) [
      | inl e ↦ rw e (
        join_empty (split b'/' path) (split_some b'/' path)
            ∙ ap (λ t. b'/' ∷ t) joined
            ∙ ap (λ d. d ∷ path) (sym (slash c e)),
        (refl, apart),
      )
      | inr e ↦ rw e (
        join-push_first c (split b'/' path) ∙ ap (λ t. c ∷ t) joined,
        pushed-All c (split b'/' path) e apart,
      )
    ]

good_path : (p : Text) → is_bad_path p ≡ false → GoesDown p
unfolding Splits
good_path p k =
    let (joined, apart) = split-Splits p in
    (
      split b'/' p,
      joined,
      apart,
      ground (arith, k),
      walk_plain [] (split b'/' p) (good_parts (split b'/' p) (ground (arith, k))),
    )

-- A path that is accepted is the text given, and each of its names goes down by one directory from the
-- root, so that it never leaves the root and leads to a place below it.
pub relative_auth_path-GoesDown :
    (v : Option Value) (path : Text)
    → relative_auth_path v ≡ ok path
    → (v ≡ some (str path)) × (is_source_text path ≡ true) × GoesDown path
unfolding relative_auth_path
relative_auth_path-GoesDown v path h =
    let (p, read, h) = >>=-eq-ok (source_text v "managed Codex auth relative path") _ h in
    let (_, good, h) = >>=-eq-ok (throw_if (is_bad_path p) _) _ h in
    let (is, source) = source_text_ok v _ p read in
    let good = throw_if-eq-ok _ _ good in
    subst (λ x. (v ≡ some (str x)) × (is_source_text x ≡ true) × GoesDown x) (ok_inj h)
      (is, source, good_path p good)

abbrev or_root : Option (List Text) → List Text
or_root none = []
or_root (some at) = at

extended :
    (name : Text) (o : Option (List Text)) (above : List Text)
    → ◌≡◌ {A = Option (List Text)}
        (elim o [ none ↦ none | some at ↦ some (name ∷ at) ])
        (some above)
    → (at : List Text) × (o ≡ some at) × (name ∷ at ≡ above)
extended name none above h = cc
extended name (some at) above h = (at, refl, ap or_root h)

pub parent_up : (at above : List Text) → parent at ≡ some above → length at ≡ length above + 1
unfolding parent
parent_up [] above h = cc
parent_up (name ∷ []) above h = ap (λ o. length (or_root o) + 1) h
parent_up (name ∷ next ∷ rest) above h =
    let (inner, e, f) = extended name (parent (next ∷ rest)) above h in
    let shorter = parent_up (next ∷ rest) inner e in
    let longer : length (name ∷ inner) ≡ length above = ap length f in
    omega (arith, shorter, longer)
