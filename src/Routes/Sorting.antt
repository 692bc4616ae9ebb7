-- ===== src/Routes/Sorting.antt =====
-- What sorting and removing repetitions leave as it was.
use memeloop_token_center_mi.Common.{
  map, ◌||◌, All-map, suc, ◌≤◌, ◌≡◌, refl, ap, ◌∙◌, ◌⊎◌, inl, inr, true, false, List, [], ◌∷◌, Text,
  text_eq, text_eq_sym, length, contains, All, Any, arith, Bool-cases,
}
use memeloop_token_center_mi.Routes.Strings.{insert, sort_by, distinct_from, distinct, less}

module _ {ℓ κ} {A : Type ℓ} (key : A → Text) (P : A → Type κ) where
  pub insert-All : (a : A) (xs : List A) → P a → All P xs → All P (insert key a xs)
  unfolding insert
  insert-All a [] p h = (p, tt)
  insert-All a (x ∷ xs) p (q, h) = elim (Bool-cases (less (key x) (key a))) [
    | inl later ↦ rw (insert, later) (q, insert-All a xs p h)
    | inr here ↦ rw (insert, here) (p, (q, h))
  ]

  pub sort_by-All : (xs : List A) → All P xs → All P (sort_by key xs)
  unfolding sort_by
  sort_by-All [] h = tt
  sort_by-All (x ∷ xs) (p, h) = insert-All x (sort_by key xs) p (sort_by-All xs h)

  insert-Any : (a : A) (xs : List A) → P a ⊎ Any P xs → Any P (insert key a xs)
  unfolding insert
  insert-Any a [] h = h
  insert-Any a (x ∷ xs) h = elim (Bool-cases (less (key x) (key a))) [
    | inl later ↦
        rw (insert, later)
          (elim h [
            | inl p ↦ inr (insert-Any a xs (inl p))
            | inr (inl q) ↦ inl q
            | inr (inr k) ↦ inr (insert-Any a xs (inr k))
          ])
    | inr here ↦ rw (insert, here) h
  ]

  pub sort_by-Any : (xs : List A) → Any P xs → Any P (sort_by key xs)
  unfolding sort_by
  sort_by-Any [] h = h
  sort_by-Any (x ∷ xs) (inl p) = insert-Any x (sort_by key xs) (inl p)
  sort_by-Any (x ∷ xs) (inr h) = insert-Any x (sort_by key xs) (inr (sort_by-Any xs h))

module _ {ℓ} {A : Type ℓ} (key : A → Text) where
  length-insert : (a : A) (xs : List A) → length (insert key a xs) ≡ suc (length xs)
  unfolding insert
  length-insert a [] = refl
  length-insert a (x ∷ xs) = ground (arith, length-insert a xs)

  pub length-sort_by : (xs : List A) → length (sort_by key xs) ≡ length xs
  unfolding sort_by
  length-sort_by [] = refl
  length-sort_by (x ∷ xs) = length-insert x (sort_by key xs) ∙ ap suc (length-sort_by xs)

-- No text stands twice in the list.
abbrev pub IsDistinct : List Text → Type 0
IsDistinct [] = Unit
IsDistinct (t ∷ ts) = (contains t ts ≡ false) × IsDistinct ts

abbrev Fresh : List Text → Text → Type 0
Fresh seen t = contains t seen ≡ false

length-distinct_from : (seen ts : List Text) → length (distinct_from seen ts) ≤ length ts
unfolding distinct_from
length-distinct_from seen [] = omega arith
length-distinct_from seen (t ∷ ts) =
    ground (arith, length-distinct_from seen ts, length-distinct_from (t ∷ seen) ts)

seen_step :
    (seen : List Text) (t : Text) (ts : List Text)
    → length (distinct_from seen (t ∷ ts)) ≡ 0
    → (contains t seen ≡ true) × (length (distinct_from seen ts) ≡ 0)
unfolding distinct_from
seen_step seen t ts h = ground (arith, h)

pub distinct_from_seen :
    (seen ts : List Text)
    → length (distinct_from seen ts) ≡ 0
    → All (λ t. contains t seen ≡ true) ts
distinct_from_seen seen [] h = tt
distinct_from_seen seen (t ∷ ts) h =
    let (now, later) = seen_step seen t ts h in (now, distinct_from_seen seen ts later)

full_step :
    (seen : List Text) (t : Text) (ts : List Text)
    → length (distinct_from seen (t ∷ ts)) ≡ length (t ∷ ts)
    → (contains t seen ≡ false) × (length (distinct_from (t ∷ seen) ts) ≡ length ts)
unfolding distinct_from
full_step seen t ts h = ground (arith, h, length-distinct_from seen ts)

apart_and_before :
    (t u : Text) (seen : List Text) → Fresh (t ∷ seen) u → (text_eq t u ≡ false) × Fresh seen u
apart_and_before t u seen h = ground (arith, h, text_eq_sym t u)

not_among : (t : Text) (ts : List Text) → All (λ u. text_eq t u ≡ false) ts → contains t ts ≡ false
not_among t [] h = refl
not_among t (u ∷ ts) (p, h) = rw (p, not_among t ts h) refl

-- Where nothing was removed, no text was seen before, and the texts are distinct.
distinct_from_full :
    (seen ts : List Text)
    → length (distinct_from seen ts) ≡ length ts
    → All (Fresh seen) ts × IsDistinct ts
distinct_from_full seen [] h = (tt, tt)
distinct_from_full seen (t ∷ ts) h =
    let (now, later) = full_step seen t ts h in
    let (fresh, rest) = distinct_from_full (t ∷ seen) ts later in
    (
      (now, All-map ts (λ u k. (apart_and_before t u seen k).1) fresh),
      (not_among t ts (All-map ts (λ u k. (apart_and_before t u seen k).0) fresh), rest),
    )

pub length-distinct-IsDistinct : (ts : List Text) → length (distinct ts) ≡ length ts → IsDistinct ts
length-distinct-IsDistinct ts h = (distinct_from_full [] ts h).1

module _ {ℓ} {A : Type ℓ} (key name : A → Text) where
  contains-insert :
      (t : Text) (a : A) (xs : List A)
      → contains t (map name (insert key a xs)) ≡ (text_eq t (name a) || contains t (map name xs))
  unfolding insert
  contains-insert t a [] = refl
  contains-insert t a (x ∷ xs) = ground (arith, contains-insert t a xs)

  contains-sort_by :
      (t : Text) (xs : List A) → contains t (map name (sort_by key xs)) ≡ contains t (map name xs)
  unfolding sort_by
  contains-sort_by t [] = refl
  contains-sort_by t (x ∷ xs) =
      ground (arith, contains-insert t x (sort_by key xs), contains-sort_by t xs)

  insert-IsDistinct :
      (a : A) (xs : List A)
      → contains (name a) (map name xs) ≡ false
      → IsDistinct (map name xs)
      → IsDistinct (map name (insert key a xs))
  unfolding insert
  insert-IsDistinct a [] h k = (refl, tt)
  insert-IsDistinct a (x ∷ xs) h (n, k) = elim (Bool-cases (less (key x) (key a))) [
    | inl later ↦
        rw (insert, later)
          (
            ground (arith, contains-insert (name x) a xs, text_eq_sym (name x) (name a), h, n),
            insert-IsDistinct a xs (ground (arith, h)) k,
          )
    | inr here ↦ rw (insert, here) (h, (n, k))
  ]

  pub sort_by-IsDistinct :
      (xs : List A) → IsDistinct (map name xs) → IsDistinct (map name (sort_by key xs))
  unfolding sort_by
  sort_by-IsDistinct [] h = tt
  sort_by-IsDistinct (x ∷ xs) (n, h) =
      insert-IsDistinct x (sort_by key xs) (contains-sort_by (name x) xs ∙ n)
        (sort_by-IsDistinct xs h)

-- What is new after a key was seen is other than the key, and was new before.
pub unseen_split {ℓ} :
    {A : Type ℓ} (name : A → Text) (k : Text) (seen : List Text) (xs : List A)
    → All (λ x. contains (name x) (k ∷ seen) ≡ false) xs
    → (contains k (map name xs) ≡ false) × All (λ x. contains (name x) seen ≡ false) xs
unseen_split name k seen [] h = (refl, tt)
unseen_split name k seen (x ∷ xs) (p, h) =
    let (other, new) = unseen_split name k seen xs h in
    (ground (arith, p, text_eq_sym k (name x), other), (ground (arith, p), new))
