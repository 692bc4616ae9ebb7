-- ===== src/Json/Progress.antt =====
-- The parser ends: every literal, value and loop consumes text, so that the fuel always suffices.
use memeloop_token_center_mi.Json.Parser.{
  whole_text, Value, Items, cons, Fields, field, behind, expect, elements_end, members_end,
  elements, members, array, object, by_head, value, parse_strict_json,
}
use memeloop_token_center_mi.Common.{
  ℕ, zero, suc, ◌≤◌, ◌<◌, ◌≢◌, Bool, true, false, List, [], ◌∷◌, Text, units, ◌==◌, if◌then◌else◌,
  ok, err, ◌>>=◌, contains, length, arith, Bool-cases, inl, inr,
}
use memeloop_token_center_mi.Json.Strings.{
  invalid, duplicate_key, out_of_fuel, Parsed, quote, skip_space, string,
}
use memeloop_token_center_mi.Json.Shorter.{
  Shorter, length-skip_space, string-Shorter, behind-lt, or_literal-Shorter, scalar-Shorter,
}

-- The rule for a step and what follows it.
Shorter-bind :
    {A B : Type 0} (n : ℕ) (m : Parsed A) (f : A × Text → Parsed B)
    → Shorter n m
    → ((r : A × Text) → length r.1 < n → Shorter n (f r))
    → Shorter n (m >>= f)
Shorter-bind n (ok r) f h k = k r h
Shorter-bind n (err invalid) f h k = tt
Shorter-bind n (err duplicate_key) f h k = tt
Shorter-bind n (err out_of_fuel) f h k = h

Shorter-mono : {A : Type 0} (n k : ℕ) (m : Parsed A) → n ≤ k → Shorter n m → Shorter k m
Shorter-mono n k (ok r) le h = omega arith
Shorter-mono n k (err invalid) le h = tt
Shorter-mono n k (err duplicate_key) le h = tt
Shorter-mono n k (err out_of_fuel) le h = h

module _ {A B : Type 0} (f : A → B) where
  -- what goes on behind a comma, and is put together
  Shorter-more :
      (n : ℕ) (s : Text) (m : Parsed A)
      → length s < n
      → Shorter (length s) m
      → Shorter n (m >>= λ r. ok (f r.0, r.1))
  Shorter-more n s m lt h =
      Shorter-bind n m _ (Shorter-mono (length s) n m (omega arith) h) (λ r le. le)

-- one step of a loop: the rest of the text is parsed on, one unit further at least
abbrev GoesOn : {A : Type 0} → ℕ → (Text → Parsed A) → Type 0
GoesOn n more = (r : Text) → length r < n → Shorter (length r) (more r)

if-Shorter :
    {A : Type 0} (n : ℕ) (b : Bool) (m k : Parsed A)
    → Shorter n m
    → Shorter n k
    → Shorter n (if b then m else k)
if-Shorter n true m k h h' = h
if-Shorter n false m k h h' = h'

elements_end-Shorter :
    (v : Value) (s : Text) (more : Text → Parsed Items)
    → GoesOn (length s) more
    → Shorter (length s) (elements_end v s more)
unfolding elements_end
elements_end-Shorter v [] more h = tt
elements_end-Shorter v (c ∷ s) more h =
    let on =
      Shorter-more (λ vs. cons v vs) (suc (length s)) s (more s) (omega arith)
        (h s (omega arith)) in
    if-Shorter (suc (length s)) (c == b']') _ _ (omega arith)
      (if-Shorter (suc (length s)) (c == b',') _ _ on tt)

members_end-Shorter :
    (k : Text) (v : Value) (s : Text) (more : Text → Parsed Fields)
    → GoesOn (length s) more
    → Shorter (length s) (members_end k v s more)
unfolding members_end
members_end-Shorter k v [] more h = tt
members_end-Shorter k v (c ∷ s) more h =
    let on =
      Shorter-more (λ fs. field k v fs) (suc (length s)) s (more s) (omega arith)
        (h s (omega arith)) in
    if-Shorter (suc (length s)) (c == b'}') _ _ (omega arith)
      (if-Shorter (suc (length s)) (c == b',') _ _ on tt)

module _ (value : Text → Parsed Value) (shorter : (s : Text) → Shorter (length s) (value s)) where
  elements-Shorter :
      (fuel : ℕ) (s : Text) → length s < fuel → Shorter (length s) (elements value fuel s)
  unfolding elements
  elements-Shorter zero s h = absurd (omega arith)
  elements-Shorter (suc fuel) s h = Shorter-bind (length s) (value s) _ (shorter s) λ r le.
      Shorter-mono (length (skip_space r.1)) (length s)
        (elements_end r.0 (skip_space r.1) (elements value fuel))
        (omega (arith, length-skip_space r.1))
        (elements_end-Shorter r.0 (skip_space r.1) (elements value fuel)
          λ t lt. elements-Shorter fuel t (omega (arith, length-skip_space r.1)))

  keyed_member :
      (fuel : ℕ) (keys : List Text) (k : Text) (s : Text)
      → GoesOn (length s) (members value fuel (k ∷ keys))
      → Shorter
          (length s)
          (value s >>= λ v. members_end k v.0 (skip_space v.1) (members value fuel (k ∷ keys)))
  keyed_member fuel keys k s h = Shorter-bind (length s) (value s) _ (shorter s) λ r le.
      Shorter-mono (length (skip_space r.1)) (length s)
        (members_end k r.0 (skip_space r.1) (members value fuel (k ∷ keys)))
        (omega (arith, length-skip_space r.1))
        (members_end-Shorter k r.0 (skip_space r.1) (members value fuel (k ∷ keys))
          λ t lt. h t (omega (arith, length-skip_space r.1)))

  colon_member :
      (fuel : ℕ) (keys : List Text) (k : Text) (s : Text)
      → GoesOn (length s) (members value fuel (k ∷ keys))
      → Shorter (length s) (
          expect b':' s >>= λ after.
          value after >>= λ v. members_end k v.0 (skip_space v.1) (members value fuel (k ∷ keys)))
  unfolding expect
  colon_member fuel keys k [] h = tt
  colon_member fuel keys k (c ∷ s) h = elim (Bool-cases (c == b':')) [
    | inl same ↦ rw same (
        Shorter-mono (length s) (suc (length s)) _ (omega arith)
          (keyed_member fuel keys k s (λ t lt. h t (omega arith))))
    | inr other ↦ rw other tt
  ]

  members-Shorter :
      (fuel : ℕ) (keys : List Text) (s : Text)
      → length s < fuel
      → Shorter (length s) (members value fuel keys s)
  unfolding members
  members-Shorter zero keys s h = absurd (omega arith)
  members-Shorter (suc fuel) keys s h =
      Shorter-bind (length s) (string (skip_space s)) _
        (Shorter-mono (length (skip_space s)) (length s) _ (length-skip_space s)
          (string-Shorter (skip_space s)))
        λ r le. elim (Bool-cases (contains r.0 keys)) [
          | inl twice ↦ rw twice tt
          | inr new ↦ rw new (
              Shorter-mono (length (skip_space r.1)) (length s) _
                (omega (arith, length-skip_space r.1))
                (colon_member fuel keys r.0 (skip_space r.1) λ t lt.
                  members-Shorter fuel (r.0 ∷ keys) t (omega (arith, length-skip_space r.1))))
        ]

  array-Shorter : (s : Text) → Shorter (suc (length s)) (array value s)
  unfolding array
  array-Shorter s =
      let inner = skip_space s in
      or_literal-Shorter _ (behind (units "]") inner) _ _
        (λ r e. omega (arith, behind-lt b']' [] inner r e, length-skip_space s))
        (Shorter-bind _ (elements value (suc (length inner)) inner) _
          (Shorter-mono (length inner) (suc (length s)) _ (omega (arith, length-skip_space s))
            (elements-Shorter (suc (length inner)) inner (omega arith)))
          λ r le. le)

  object-Shorter : (s : Text) → Shorter (suc (length s)) (object value s)
  unfolding object
  object-Shorter s =
      let inner = skip_space s in
      or_literal-Shorter _ (behind (units "}") inner) _ _
        (λ r e. omega (arith, behind-lt b'}' [] inner r e, length-skip_space s))
        (Shorter-bind _ (members value (suc (length inner)) [] inner) _
          (Shorter-mono (length inner) (suc (length s)) _ (omega (arith, length-skip_space s))
            (members-Shorter (suc (length inner)) [] inner (omega arith)))
          λ r le. le)

  by_head-Shorter :
      (is_finite : Bool → Text → Bool) (s : Text) → Shorter (length s) (by_head is_finite value s)
  unfolding by_head
  by_head-Shorter is_finite [] = tt
  by_head-Shorter is_finite (c ∷ s) =
      if-Shorter (suc (length s)) (c == quote) _ _
        (Shorter-bind _ (string (c ∷ s)) _ (string-Shorter (c ∷ s)) (λ r le. le))
        (if-Shorter (suc (length s)) (c == b'{') _ _ (object-Shorter s) (
          if-Shorter (suc (length s)) (c == b'[') _ _ (array-Shorter s)
            (scalar-Shorter is_finite (c ∷ s))))

value-Shorter :
    (is_finite : Bool → Text → Bool) (levels : ℕ) (s : Text)
    → Shorter (length s) (value is_finite levels s)
unfolding value
value-Shorter is_finite zero s = tt
value-Shorter is_finite (suc levels) s =
    Shorter-mono (length (skip_space s)) (length s) _ (length-skip_space s) (
      by_head-Shorter (value is_finite levels) (value-Shorter is_finite levels) is_finite
        (skip_space s))

never_whole : (r : Value × Text) → whole_text r ≢ err out_of_fuel
never_whole (v, []) = cc
never_whole (v, c ∷ s) = cc

finish_lem :
    (n : ℕ) (m : Parsed Value)
    → Shorter n m
    → (m >>= λ r. whole_text (r.0, skip_space r.1)) ≢ err out_of_fuel
finish_lem n (ok r) h = never_whole (r.0, skip_space r.1)
finish_lem n (err invalid) h = cc
finish_lem n (err duplicate_key) h = cc
finish_lem n (err out_of_fuel) h = absurd h

-- The parser ends on every text, at every depth limit: the fuel of its loops, one more than the
-- length of the text, is never used up.
pub parse_strict_json_ends :
    (is_finite : Bool → Text → Bool) (max_depth : ℕ) (source : Text)
    → parse_strict_json is_finite max_depth source ≢ err out_of_fuel
unfolding parse_strict_json
parse_strict_json_ends is_finite max_depth source =
    finish_lem (length source) (value is_finite (suc max_depth) source)
      (value-Shorter is_finite (suc max_depth) source)
