-- ===== src/Json/Accepted.antt =====
-- What holds of every value that the parser returns: distinct keys, safe integers, bounded depth.
use memeloop_token_center_mi.Common.{
  ℕ, zero, suc, ◌≤◌, ◌≡◌, refl, Bool, false, Option, none, some, List, [], ◌∷◌, Text, units, ◌==◌,
  ok, err, ◌>>=◌, contains, length, arith, Bool-cases, inl, inr,
}
use memeloop_token_center_mi.Json.Strings.{Parsed, quote, skip_space, string}
use memeloop_token_center_mi.Json.Number.{Lexeme, number_lexeme}
use memeloop_token_center_mi.Json.Parser.{
  Value, arr, obj, Items, nil, Fields, end, behind, expect, number_value, number, scalar,
  elements_end, members_end, elements, members, array, object, by_head, value, parse_strict_json,
  whole_text,
}
use memeloop_token_center_mi.Json.Ensured.{
  depth, depth_items, depth_fields, IsClean, AreClean, HasDistinctKeys, Ensures, Ensures-bind,
  Ensures-if, Ensures-any, Ensures-after, Ensures-literal, Fits, FitItems, FitFields, Apart-field,
  Apart-end,
}

module _ (levels : ℕ) where
  elements_end-Fits :
      (v : Value) (s : Text) (more : Text → Parsed Items)
      → Fits levels v
      → ((r : Text) → Ensures (FitItems levels) (more r))
      → Ensures (FitItems levels) (elements_end v s more)
  unfolding elements_end AreClean depth_items
  elements_end-Fits v [] more h k = tt
  elements_end-Fits v (c ∷ s) more h k =
      Ensures-if _ (c == b']') _ _ ((h.0, tt), omega arith)
        (Ensures-if _ (c == b',') _ _
          (Ensures-bind (FitItems levels) _ (more s) _ (k s) λ r g. ((h.0, g.0), omega arith)) tt)

  members_end-Fits :
      (key : Text) (keys : List Text) (v : Value) (s : Text) (more : Text → Parsed Fields)
      → contains key keys ≡ false
      → Fits levels v
      → ((r : Text) → Ensures (FitFields levels (key ∷ keys)) (more r))
      → Ensures (FitFields levels keys) (members_end key v s more)
  unfolding members_end HasDistinctKeys depth_fields
  members_end-Fits key keys v [] more n h k = tt
  members_end-Fits key keys v (c ∷ s) more n h k =
      Ensures-if _ (c == b'}') _ _
        ((refl, h.0, tt), omega arith, Apart-field key v keys end n (Apart-end keys))
        (Ensures-if _ (c == b',') _ _
          (Ensures-bind (FitFields levels (key ∷ keys)) _ (more s) _ (k s)
            λ r g. ((g.2.0, h.0, g.0), omega arith, Apart-field key v keys r.0 n g.2.1))
          tt)

  module _ (value : Text → Parsed Value) (fits : (s : Text) → Ensures (Fits levels) (value s)) where
    elements-Fits : (fuel : ℕ) (s : Text) → Ensures (FitItems levels) (elements value fuel s)
    unfolding elements
    elements-Fits zero s = tt
    elements-Fits (suc fuel) s =
        Ensures-bind (Fits levels) _ (value s) _ (fits s)
          λ r h. elements_end-Fits r.0 (skip_space r.1) (elements value fuel) h (elements-Fits fuel)

    members-Fits :
        (fuel : ℕ) (keys : List Text) (s : Text)
        → Ensures (FitFields levels keys) (members value fuel keys s)
    unfolding members
    members-Fits zero keys s = tt
    members-Fits (suc fuel) keys s =
        Ensures-bind (λ _. Unit {0}) _ (string (skip_space s)) _
          (Ensures-any (string (skip_space s)))
          λ k _. elim (Bool-cases (contains k.0 keys)) [
            | inl twice ↦ rw twice tt
            | inr new ↦ rw new (
                Ensures-after _ (expect b':' (skip_space k.1)) _ λ after.
                  Ensures-bind (Fits levels) _ (value after) _ (fits after) λ r h.
                    members_end-Fits k.0 keys r.0 (skip_space r.1) (members value fuel (k.0 ∷ keys))
                      new h (members-Fits fuel (k.0 ∷ keys)))
          ]

    array-Fits : (s : Text) → Ensures (Fits (suc levels)) (array value s)
    unfolding array IsClean depth
    array-Fits s =
        let inner = skip_space s in
        Ensures-literal (Fits (suc levels)) (behind (units "]") inner) (arr nil) _ (tt, omega arith)
          (Ensures-bind (FitItems levels) _ (elements value (suc (length inner)) inner) _
            (elements-Fits (suc (length inner)) inner) λ r h. (h.0, omega arith))

    object-Fits : (s : Text) → Ensures (Fits (suc levels)) (object value s)
    unfolding object IsClean depth
    object-Fits s =
        let inner = skip_space s in
        Ensures-literal (Fits (suc levels)) (behind (units "}") inner) (obj end) _ (tt, omega arith)
          (Ensures-bind (FitFields levels []) _ (members value (suc (length inner)) [] inner) _
            (members-Fits (suc (length inner)) [] inner) λ r h. (h.0, omega arith))

module _ (is_finite : Bool → Text → Bool) (levels : ℕ) where
  number-Fits : (o : Option Lexeme) → Ensures (Fits (suc levels)) (number is_finite o)
  unfolding number number_value IsClean depth
  number-Fits none = tt
  number-Fits (some l) = ground arith

  scalar-Fits : (s : Text) → Ensures (Fits (suc levels)) (scalar is_finite s)
  unfolding scalar IsClean depth
  scalar-Fits s =
      Ensures-literal _ (behind (units "true") s) _ _ (tt, omega arith)
        (Ensures-literal _ (behind (units "false") s) _ _ (tt, omega arith)
          (Ensures-literal _ (behind (units "null") s) _ _ (tt, omega arith)
            (number-Fits (number_lexeme s))))

  by_head-Fits :
      (value : Text → Parsed Value)
      → ((s : Text) → Ensures (Fits levels) (value s))
      → (s : Text) → Ensures (Fits (suc levels)) (by_head is_finite value s)
  unfolding by_head IsClean depth
  by_head-Fits value fits [] = tt
  by_head-Fits value fits (c ∷ s) =
      Ensures-if _ (c == quote) _ _
        (Ensures-bind (λ _. Unit {0}) _ (string (c ∷ s)) _ (Ensures-any (string (c ∷ s)))
          λ r _. (tt, omega arith))
        (Ensures-if _ (c == b'{') _ _ (object-Fits levels value fits s)
          (Ensures-if _ (c == b'[') _ _ (array-Fits levels value fits s) (scalar-Fits (c ∷ s))))

value-Fits :
    (is_finite : Bool → Text → Bool) (levels : ℕ) (s : Text)
    → Ensures (Fits levels) (value is_finite levels s)
unfolding value
value-Fits is_finite zero s = tt
value-Fits is_finite (suc levels) s =
    by_head-Fits is_finite levels (value is_finite levels) (value-Fits is_finite levels)
      (skip_space s)

whole_text-eq-ok : (r : Value × Text) (v : Value) → whole_text r ≡ ok v → r.0 ≡ v
whole_text-eq-ok (u, []) v h = cc
whole_text-eq-ok (u, c ∷ s) v h = cc

-- A value that the parser accepts has distinct keys in every object, at every level, only safe
-- integers, and no value nested deeper than the limit.
pub parse_strict_json-IsClean :
    (is_finite : Bool → Text → Bool) (max_depth : ℕ) (source : Text) (v : Value)
    → parse_strict_json is_finite max_depth source ≡ ok v
    → IsClean v × (depth v ≤ max_depth)
unfolding parse_strict_json
parse_strict_json-IsClean is_finite max_depth source v h =
    accepted (value is_finite (suc max_depth) source) (value-Fits is_finite (suc max_depth) source)
      h
  where
    accepted :
        (m : Parsed Value)
        → Ensures (Fits (suc max_depth)) m
        → (m >>= λ r. whole_text (r.0, skip_space r.1)) ≡ ok v
        → IsClean v × (depth v ≤ max_depth)
    accepted (ok r) f e =
        let same = whole_text-eq-ok (r.0, skip_space r.1) v e in rw (← same) (f.0, omega arith)
    accepted (err x) f e = cc
