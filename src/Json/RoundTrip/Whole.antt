-- ===== src/Json/RoundTrip/Whole.antt =====
-- The round trip, by induction on the value.
use memeloop_token_center_mi.Json.RoundTrip.Steps.{
  length-print_string, by_head-OtherHead, skip_space-print, behind-print, array-of, object-of,
  elements-of, elements_end-comma, members-of, members_end-comma, Apart-head, Apart-tail,
  count_items, count_fields, count-print_more_items, count-print_more_fields, length-print,
}
use memeloop_token_center_mi.Common.{
  ◌∙◌, ℕ, zero, suc, ◌<◌, ◌≤◌, ◌≡◌, refl, Bool, true, false, List, [], ◌∷◌, Text, arith, ok,
  contains, length,
}
use memeloop_token_center_mi.Json.Strings.{Parsed, skip_space}
use memeloop_token_center_mi.Json.Parser.{
  Value, null, bool, int, real, str, arr, obj, Items, nil, cons, Fields, end, field, behind, scalar,
  elements_end, members_end, elements, members, array, object, by_head, value, parse_strict_json,
}
use memeloop_token_center_mi.Json.Ensured.{
  IsClean, AreClean, HasDistinctKeys, depth, depth_items, depth_fields, Apart,
}
use memeloop_token_center_mi.Json.Print.{
  print, print_items, print_more_items, print_fields, print_more_fields, print_string, print_int,
  IsExact, AreExact, HasExactFields,
}
use memeloop_token_center_mi.Json.RoundTrip.Strings.{string-print_string}
use memeloop_token_center_mi.Json.RoundTrip.Numbers.{Stops, print_int-OtherHead, number-print_int}

module _ (is_finite : Bool → Text → Bool) where
  -- from the head of the text to the value
  of_head :
      (levels : ℕ) (v : Value) (rest : Text)
      → IsExact v
      → by_head is_finite (value is_finite levels) (print v rest) ≡ ok (v, rest)
      → value is_finite (suc levels) (print v rest) ≡ ok (v, rest)
  unfolding value
  of_head levels v rest exact h = rw (skip_space-print v rest exact) h

  int_head :
      (levels n : ℕ) (negative : Bool) (rest : Text)
      → IsClean (int negative n)
      → Stops rest
      → by_head is_finite (value is_finite levels) (print (int negative n) rest)
        ≡ ok (int negative n, rest)
  unfolding print IsClean
  int_head levels n negative rest clean stops =
      by_head-OtherHead is_finite (value is_finite levels) (print_int negative n rest)
        (print_int-OtherHead negative n rest)
      ∙ number-print_int is_finite negative n rest clean stops

  str_head :
      (p : Text → Parsed Value) (s rest : Text)
      → by_head is_finite p (print (str s) rest) ≡ ok (str s, rest)
  unfolding print by_head
  str_head p s rest = rw (string-print_string s rest)

  leaf_null :
      (p : Text → Parsed Value) (rest : Text)
      → by_head is_finite p (print null rest) ≡ ok (null, rest)
  unfolding print by_head scalar behind
  leaf_null p rest = refl

  leaf_true :
      (p : Text → Parsed Value) (rest : Text)
      → by_head is_finite p (print (bool true) rest) ≡ ok (bool true, rest)
  unfolding print by_head scalar behind
  leaf_true p rest = refl

  leaf_false :
      (p : Text → Parsed Value) (rest : Text)
      → by_head is_finite p (print (bool false) rest) ≡ ok (bool false, rest)
  unfolding print by_head scalar behind
  leaf_false p rest = refl

  leaf_nil :
      (p : Text → Parsed Value) (rest : Text)
      → by_head is_finite p (print (arr nil) rest) ≡ ok (arr nil, rest)
  unfolding print print_items by_head array behind skip_space
  leaf_nil p rest = refl

  leaf_end :
      (p : Text → Parsed Value) (rest : Text)
      → by_head is_finite p (print (obj end) rest) ≡ ok (obj end, rest)
  unfolding print print_fields by_head object behind skip_space
  leaf_end p rest = refl

  arr_head :
      (p : Text → Parsed Value) (v : Value) (vs : Items) (rest : Text)
      → IsExact v
      → p (print v (print_more_items vs rest)) ≡ ok (v, print_more_items vs rest)
      → ((fuel : ℕ)
          → count_items vs ≤ fuel
          → elements_end v (skip_space (print_more_items vs rest)) (elements p fuel)
            ≡ ok (cons v vs, rest))
      → by_head is_finite p (print (arr (cons v vs)) rest) ≡ ok (arr (cons v vs), rest)
  unfolding print print_items by_head
  arr_head p v vs rest exact h more =
      let s = print v (print_more_items vs rest) in
      array-of p s rest (cons v vs) (skip_space-print v _ exact) (behind-print v _ exact) (
        elements-of p (length s) s (print_more_items vs rest) rest v (cons v vs) h (
          more (length s) (
            omega
              (arith, length-print v (print_more_items vs rest), count-print_more_items vs rest))))

  obj_head :
      (p : Text → Parsed Value) (k : Text) (v : Value) (fs : Fields) (rest : Text)
      → p (print v (print_more_fields fs rest)) ≡ ok (v, print_more_fields fs rest)
      → ((fuel : ℕ)
          → count_fields fs ≤ fuel
          → members_end k v (skip_space (print_more_fields fs rest)) (members p fuel (k ∷ []))
            ≡ ok (field k v fs, rest))
      → by_head is_finite p (print (obj (field k v fs)) rest) ≡ ok (obj (field k v fs), rest)
  unfolding print print_fields by_head skip_space behind
  obj_head p k v fs rest h more =
      let s = print v (print_more_fields fs rest) in
      let whole = print_string k (b':' ∷ s) in
      object-of p whole rest (field k v fs) refl refl (
        members-of p (length whole) [] k s (print_more_fields fs rest) rest v (field k v fs) refl h
          (more (length whole) (
            omega (
              arith,
              length-print_string k (b':' ∷ s),
              length-print v (print_more_fields fs rest),
              count-print_more_fields fs rest,
            ))))

  more_items_nil :
      (p : Text → Parsed Value) (v : Value) (fuel : ℕ) (rest : Text)
      → elements_end v (skip_space (print_more_items nil rest)) (elements p fuel)
        ≡ ok (cons v nil, rest)
  unfolding print_more_items elements_end skip_space
  more_items_nil p v fuel rest = refl

  more_fields_end :
      (p : Text → Parsed Value) (k : Text) (keys : List Text) (v : Value) (fuel : ℕ) (rest : Text)
      → members_end k v (skip_space (print_more_fields end rest)) (members p fuel keys)
        ≡ ok (field k v end, rest)
  unfolding print_more_fields members_end skip_space
  more_fields_end p k keys v fuel rest = refl

  more_items_cons :
      (p : Text → Parsed Value) (v w : Value) (ws : Items) (fuel : ℕ) (rest : Text)
      → p (print w (print_more_items ws rest)) ≡ ok (w, print_more_items ws rest)
      → elements_end w (skip_space (print_more_items ws rest)) (elements p fuel)
        ≡ ok (cons w ws, rest)
      → elements_end v (skip_space (print_more_items (cons w ws) rest)) (elements p (suc fuel))
        ≡ ok (cons v (cons w ws), rest)
  unfolding print_more_items
  more_items_cons p v w ws fuel rest h k =
      let s = print w (print_more_items ws rest) in
      elements_end-comma p (suc fuel) s rest v (cons w ws)
        (elements-of p fuel s (print_more_items ws rest) rest w (cons w ws) h k)

  more_fields_cons :
      (p : Text → Parsed Value) (j k : Text) (keys : List Text) (v w : Value) (fs : Fields)
      (fuel : ℕ) (rest : Text)
      → contains k keys ≡ false
      → p (print w (print_more_fields fs rest)) ≡ ok (w, print_more_fields fs rest)
      → members_end k w (skip_space (print_more_fields fs rest)) (members p fuel (k ∷ keys))
        ≡ ok (field k w fs, rest)
      → members_end j v
          (skip_space (print_more_fields (field k w fs) rest))
          (members p (suc fuel) keys)
        ≡ ok (field j v (field k w fs), rest)
  unfolding print_more_fields
  more_fields_cons p j k keys v w fs fuel rest new h e =
      let s = print w (print_more_fields fs rest) in
      members_end-comma p (suc fuel) keys j (print_string k (b':' ∷ s)) rest v (field k w fs)
        (members-of p fuel keys k s (print_more_fields fs rest) rest w (field k w fs) new h e)

  Stops-more_items : (vs : Items) (rest : Text) → Stops (print_more_items vs rest)
  unfolding print_more_items
  Stops-more_items nil rest = ground arith
  Stops-more_items (cons v vs) rest = ground arith

  Stops-more_fields : (fs : Fields) (rest : Text) → Stops (print_more_fields fs rest)
  unfolding print_more_fields
  Stops-more_fields end rest = ground arith
  Stops-more_fields (field k v fs) rest = ground arith

  mutual
    unfolding IsClean AreClean HasDistinctKeys IsExact AreExact HasExactFields depth depth_items
        depth_fields count_items count_fields

    value-print :
        (v : Value) (levels : ℕ) (rest : Text)
        → IsClean v
        → IsExact v
        → depth v < levels
        → Stops rest
        → value is_finite levels (print v rest) ≡ ok (v, rest)
    value-print v zero rest c x d s = absurd (omega arith)
    value-print null (suc levels) rest c x d s = of_head levels null rest tt (leaf_null _ rest)
    value-print (bool true) (suc levels) rest c x d s =
        of_head levels (bool true) rest tt (leaf_true _ rest)
    value-print (bool false) (suc levels) rest c x d s =
        of_head levels (bool false) rest tt (leaf_false _ rest)
    value-print (int negative n) (suc levels) rest c x d s =
        of_head levels (int negative n) rest tt (int_head levels n negative rest c s)
    value-print (real negative t) (suc levels) rest c x d s = absurd x
    value-print (str t) (suc levels) rest c x d s =
        of_head levels (str t) rest tt (str_head _ t rest)
    value-print (arr nil) (suc levels) rest c x d s =
        of_head levels (arr nil) rest tt (leaf_nil _ rest)
    value-print (arr (cons v vs)) (suc levels) rest c x d s =
        of_head levels (arr (cons v vs)) rest x (
          arr_head (value is_finite levels) v vs rest x.0
            (value-print v levels (print_more_items vs rest) c.0 x.0 (omega arith)
              (Stops-more_items vs rest))
            (λ fuel enough. more_items-print vs v levels fuel rest c.1 x.1 (omega arith) enough))
    value-print (obj end) (suc levels) rest c x d s =
        of_head levels (obj end) rest tt (leaf_end _ rest)
    value-print (obj (field k v fs)) (suc levels) rest c x d s =
        of_head levels (obj (field k v fs)) rest x (
          obj_head (value is_finite levels) k v fs rest
            (value-print v levels (print_more_fields fs rest) c.1 x.0 (omega arith)
              (Stops-more_fields fs rest))
            (λ fuel enough.
              more_fields-print fs k (k ∷ []) v levels fuel rest c.2 (c.0, tt) x.1 (omega arith)
                enough))

    more_items-print :
        (vs : Items) (v : Value) (levels fuel : ℕ) (rest : Text)
        → AreClean vs
        → AreExact vs
        → depth_items vs ≤ levels
        → count_items vs ≤ fuel
        → elements_end v
            (skip_space (print_more_items vs rest))
            (elements (value is_finite levels) fuel)
          ≡ ok (cons v vs, rest)
    more_items-print nil v levels fuel rest c x d enough = more_items_nil _ v fuel rest
    more_items-print (cons w ws) v levels zero rest c x d enough = absurd (omega arith)
    more_items-print (cons w ws) v levels (suc fuel) rest c x d enough =
        more_items_cons (value is_finite levels) v w ws fuel rest
          (value-print w levels (print_more_items ws rest) c.0 x.0 (omega arith)
            (Stops-more_items ws rest))
          (more_items-print ws w levels fuel rest c.1 x.1 (omega arith) (omega arith))

    more_fields-print :
        (fs : Fields) (j : Text) (keys : List Text) (v : Value) (levels fuel : ℕ) (rest : Text)
        → HasDistinctKeys fs
        → Apart keys fs
        → HasExactFields fs
        → depth_fields fs ≤ levels
        → count_fields fs ≤ fuel
        → members_end j v
            (skip_space (print_more_fields fs rest))
            (members (value is_finite levels) fuel keys)
          ≡ ok (field j v fs, rest)
    more_fields-print end j keys v levels fuel rest c a x d enough =
        more_fields_end _ j keys v fuel rest
    more_fields-print (field k w fs) j keys v levels zero rest c a x d enough = absurd (omega arith)
    more_fields-print (field k w fs) j keys v levels (suc fuel) rest c a x d enough =
        more_fields_cons (value is_finite levels) j k keys v w fs fuel rest
          (Apart-head keys k w fs a)
          (value-print w levels (print_more_fields fs rest) c.1 x.0 (omega arith)
            (Stops-more_fields fs rest))
          (more_fields-print fs k (k ∷ keys) w levels fuel rest c.2 (c.0, Apart-tail keys k w fs a)
            x.1 (omega arith) (omega arith))

  -- The text of a value with distinct keys and safe integers, no number with a fraction or an
  -- exponent, and no nesting beyond the limit, is parsed back to that value.
  pub parse_strict_json-print :
      (max_depth : ℕ) (v : Value)
      → IsClean v
      → IsExact v
      → depth v ≤ max_depth
      → parse_strict_json is_finite max_depth (print v []) ≡ ok v
  unfolding parse_strict_json
  parse_strict_json-print max_depth v clean exact shallow =
      rw (value-print v (suc max_depth) [] clean exact (omega arith) tt) (unfold skip_space in refl)
