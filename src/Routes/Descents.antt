-- ===== src/Routes/Descents.antt =====
-- Which values are accepted as relative paths of the accounts.
use memeloop_token_center_mi.Common.{
  suc, ℕ, ◌+◌, ◌≤◌, ◌≡◌, ◌≢◌, refl, sym, ap, ◌∙◌, ◌⊎◌, inl, inr, Bool, true, false, ◌||◌, ◌==◌,
  Option, none, some, List, [], ◌∷◌, ◌++◌, Text, units, text_eq, if◌then◌else◌, length, All, arith,
  any, ok, ◌↔◌,
}
use memeloop_token_center_mi.Json.Parser.{Value, str, behind}
use memeloop_token_center_mi.Routes.Strings.{split, starts_with, trim}
use memeloop_token_center_mi.Routes.Schema.{
  relative_auth_path, source_text, is_bad_part, is_bad_path, is_source_text,
}
use memeloop_token_center_mi.Routes.Paths.{
  parent, parent_up, walk, join_slash, GoesDown, relative_auth_path-GoesDown,
}

module _ (r : List Text) where
  -- what a step of the walk was
  stepped :
      (stays ups : Bool) (stay up down : Option (List Text))
      → (if stays then stay else if ups then up else down) ≡ some r
      → ((stay ≡ some r) ⊎ (up ≡ some r)) ⊎ ((stays ≡ false) × (ups ≡ false) × (down ≡ some r))
  stepped true ups stay up down h = inl (inl h)
  stepped false true stay up down h = inl (inr h)
  stepped false false stay up down h = inr (refl, refl, h)

  went_up :
      (rest : List Text) (o : Option (List Text))
      → ◌≡◌ {A = Option (List Text)}
          (elim o [ none ↦ none | some above ↦ walk above rest ])
          (some r)
      → (above : List Text) × (o ≡ some above) × (walk above rest ≡ some r)
  went_up rest none h = cc
  went_up rest (some above) h = (above, refl, h)

  walk_step :
      (at : List Text) (name : Text) (rest : List Text)
      → walk at (name ∷ rest) ≡ some r
      → ((walk at rest ≡ some r)
          ⊎ ((above : List Text) × (parent at ≡ some above) × (walk above rest ≡ some r)))
        ⊎ ((length name == 0 || text_eq name (units ".") ≡ false)
            × (text_eq name (units "..") ≡ false)
            × (walk (at ++ name ∷ []) rest ≡ some r))
  unfolding walk
  walk_step at name rest h =
      elim (stepped (length name == 0 || text_eq name (units ".")) (text_eq name (units ".."))
        (walk at rest) (elim (parent at) [ none ↦ none | some above ↦ walk above rest ])
        (walk (at ++ name ∷ []) rest) h) [
          | inl (inl stay) ↦ inl (inl stay)
          | inl (inr up) ↦ inl (inr (went_up rest (parent at) up))
          | inr down ↦ inr down
        ]

  length-snoc : (at : List Text) (name : Text) → length (at ++ name ∷ []) ≡ length at + 1
  length-snoc [] name = refl
  length-snoc (x ∷ at) name = ground (arith, length-snoc at name)

  -- a walk goes down by one name at most with every name
  walk_bounds :
      (at names : List Text) → walk at names ≡ some r → length r ≤ length at + length names
  unfolding walk
  walk_bounds at [] h = ground (arith, h)
  walk_bounds at (name ∷ rest) h = elim (walk_step at name rest h) [
    | inl (inl stay) ↦ ground (arith, walk_bounds at rest stay)
    | inl (inr up) ↦
        (let (above, e, k) = up in
          let longer = parent_up at above e in
          let bound = walk_bounds above rest k in omega (arith, longer, bound))
    | inr (_, _, down) ↦
        ground (arith, walk_bounds (at ++ name ∷ []) rest down, length-snoc at name)
  ]

  no_room : {b : Bool} (m n l : ℕ) → m + suc n ≤ l → l ≤ m + n → b ≡ false
  no_room m n l h k = absurd (omega (arith, h, k))

  -- where it goes down with every name, no name stays or goes up
  walk_down :
      (at names : List Text)
      → walk at names ≡ some r
      → length at + length names ≤ length r
      → any is_bad_part names ≡ false
  unfolding walk
  walk_down at [] h le = refl
  walk_down at (name ∷ rest) h le = elim (walk_step at name rest h) [
    | inl (inl stay) ↦ no_room (length at) (length rest) (length r) le (walk_bounds at rest stay)
    | inl (inr up) ↦
        (let (above, e, k) = up in
          let longer = parent_up at above e in
          let bound = walk_bounds above rest k in
          no_room (length at) (length rest) (length r) le (omega (arith, longer, bound)))
    | inr (plain, here, down) ↦
        (let more =
            walk_down (at ++ name ∷ []) rest down (ground (arith, le, length-snoc at name)) in
          ground (arith, plain, here, more))
  ]

or_no_left : (a b : Bool) → (a || b) ≡ false → a ≡ false
or_no_left a b h = ground arith

or_no_right : (a b : Bool) → (a || b) ≡ false → b ≡ false
or_no_right a b h = ground arith

split_name : (name : Text) → any (λ c. c == b'/') name ≡ false → split b'/' name ≡ name ∷ []
unfolding split
split_name [] h = refl
split_name (c ∷ name) h =
    rw (or_no_left (c == b'/') _ h, split_name name (or_no_right (c == b'/') _ h)) refl

split_front :
    (name t : Text)
    → any (λ c. c == b'/') name ≡ false
    → split b'/' (name ++ b'/' ∷ t) ≡ name ∷ split b'/' t
unfolding split
split_front [] t h = refl
split_front (c ∷ name) t h =
    rw (or_no_left (c == b'/') _ h, split_front name t (or_no_right (c == b'/') _ h)) refl

split-join_slash :
    (name : Text) (names : List Text)
    → All (λ name. any (λ c. c == b'/') name ≡ false) (name ∷ names)
    → split b'/' (join_slash (name ∷ names)) ≡ name ∷ names
split-join_slash name [] (h, _) = split_name name h
split-join_slash name (next ∷ rest) (h, k) =
    split_front name (join_slash (next ∷ rest)) h
    ∙ ap (λ ns. name ∷ ns) (split-join_slash next rest k)

relative_start :
    (p : Text) → any is_bad_part (split b'/' p) ≡ false → starts_with (units "/") p ≡ false
unfolding split starts_with behind
relative_start [] h = refl
relative_start (c ∷ p) h = ground (arith, h)

-- names that lead to themselves, and are there, are what their path splits into
split_names :
    (names : List Text) (p : Text)
    → join_slash names ≡ p
    → p ≢ []
    → All (λ name. any (λ c. c == b'/') name ≡ false) names
    → split b'/' p ≡ names
split_names [] p e h k = absurd (h (sym e))
split_names (name ∷ names) p e h k = ap (split b'/') (sym e) ∙ split-join_slash name names k

source_text_some : (p : Text) → is_source_text p ≡ true → p ≢ []
unfolding trim
source_text_some [] h e = cc
source_text_some (c ∷ p) h e = cc

good_descent : (p : Text) → is_source_text p ≡ true → GoesDown p → is_bad_path p ≡ false
good_descent p h (names, e, apart, forward, leads) =
    let same = split_names names p e (source_text_some p h) apart in
    let good : any is_bad_part (split b'/' p) ≡ false =
      ap (any is_bad_part) same ∙ walk_down names [] names leads (omega arith) in
    ground (arith, h, forward, good, relative_start p good)

-- A value is accepted as a relative path exactly where it is a source text without backslashes, made of
-- names, joined by slashes, each of which goes down by one directory, so that following them from the
-- root never leaves it and leads to exactly these names.
pub relative_auth_path_iff :
    (v : Option Value) (path : Text)
    → (relative_auth_path v ≡ ok path)
      ↔ ((v ≡ some (str path)) × (is_source_text path ≡ true) × GoesDown path)
unfolding relative_auth_path source_text
relative_auth_path_iff v path = (
  relative_auth_path-GoesDown v path,
  λ (is, source, down). rw (is, source, good_descent path source down) refl,
)
