-- ===== src/Routes/Sets.antt =====
-- What accepted candidate material holds, and the order of the sets.
use memeloop_token_center_mi.Routes.Material.{
  check_sets, candidate_sets, MaterialCandidate, MaterialModel, is_bad_candidate, model_key,
}
use memeloop_token_center_mi.Common.{
  refl, inl, inr, Bool-cases, All, All-map, text_eq, text_eq_sound, ◌≡◌, ◌≢◌, ◌≤◌, Bool, true,
  false, not, ◌||◌, List, [], ◌∷◌, Text, units, contains, ltb, ◌==◌, any, length, ok, ok_inj,
  throw_if, throw_if-eq-ok, >>=-eq-ok, arith,
}
use mathlib.Core.Path.{subst}
use mathlib.Core.List.{Perm}
use mathlib.Core.List.Perm
use memeloop_token_center_mi.Routes.Sorting.{insert-All}
use memeloop_token_center_mi.Routes.Strings.{insert, less, sort_by}
use memeloop_token_center_mi.Routes.Regexp.{max_models}
use memeloop_token_center_mi.Routes.Serve.{Coordinate, coordinate, coordinate_key, is_stable_id}

three_false : (a b c : Bool) → (a || b || c) ≡ false → (a ≡ false) × (b ≡ false) × (c ≡ false)
three_false a b c h = ground arith

five_false :
    (a b c d e : Bool)
    → (a || b || c || d || e) ≡ false
    → (a ≡ false) × (b ≡ false) × (c ≡ false) × (d ≡ false) × (e ≡ false)
five_false a b c d e h = ground arith

negated : (b : Bool) → not b ≡ false → b ≡ true
negated b h = ground arith

-- What `less` leaves out is an order.
less_trans : (s t u : Text) → less t s ≡ false → less u t ≡ false → less u s ≡ false
unfolding less
less_trans [] t u h k = refl
less_trans (a ∷ s) [] u h k = cc
less_trans (a ∷ s) (b ∷ t) [] h k = cc
less_trans (a ∷ s) (b ∷ t) (c ∷ u) h k = ground (arith, less_trans s t u)

less_asym : (s t : Text) → less s t ≡ true → less t s ≡ false
unfolding less
less_asym s [] h = cc
less_asym [] (b ∷ t) h = refl
less_asym (a ∷ s) (b ∷ t) h = ground (arith, less_asym s t)

module _ {A : Type 0} (key : A → Text) where
  -- no element has a key less than that of an element before it
  abbrev pub IsSorted : List A → Type 0
  IsSorted [] = Unit
  IsSorted (x ∷ xs) = All (λ y. less (key y) (key x) ≡ false) xs × IsSorted xs

  insert-IsSorted : (a : A) (xs : List A) → IsSorted xs → IsSorted (insert key a xs)
  unfolding insert
  insert-IsSorted a [] h = (tt, tt)
  insert-IsSorted a (x ∷ xs) (below, h) = elim (Bool-cases (less (key x) (key a))) [
    | inl later ↦
        rw (insert, later)
          (
            insert-All key (λ y. less (key y) (key x) ≡ false) a xs
                (less_asym (key x) (key a) later) below,
            insert-IsSorted a xs h,
          )
    | inr here ↦
        rw (insert, here)
          ((here, All-map xs (λ y k. less_trans (key a) (key x) (key y) here k) below), (below, h))
  ]

  sort_by-IsSorted : (xs : List A) → IsSorted (sort_by key xs)
  unfolding sort_by
  sort_by-IsSorted [] = tt
  sort_by-IsSorted (x ∷ xs) = insert-IsSorted x (sort_by key xs) (sort_by-IsSorted xs)

  insert-Perm : (a : A) (xs : List A) → Perm (a ∷ xs) (insert key a xs)
  unfolding insert
  insert-Perm a [] = Perm.refl (a ∷ [])
  insert-Perm a (x ∷ xs) = elim (Bool-cases (less (key x) (key a))) [
    | inl later ↦
        rw (insert, later) (Perm.trans (Perm.swap x a xs) (Perm.cons x (insert-Perm a xs)))
    | inr here ↦ rw (insert, here) (Perm.refl (a ∷ x ∷ xs))
  ]

  sort_by-Perm : (xs : List A) → Perm xs (sort_by key xs)
  unfolding sort_by
  sort_by-Perm [] = Perm.refl []
  sort_by-Perm (x ∷ xs) =
      Perm.trans (Perm.cons x (sort_by-Perm xs)) (insert-Perm x (sort_by key xs))

-- a candidate of the managed provider
abbrev pub IsCandidate : MaterialCandidate → Type 0
IsCandidate c =
    (c.driver ≡ units "openai-codex")
    × (c.source_provider ≡ units "codex")
    × (is_stable_id c.source_stable_id ≡ true)

good-IsCandidate : (c : MaterialCandidate) → is_bad_candidate c ≡ false → IsCandidate c
good-IsCandidate c h =
    let (driver, provider, stable) =
      three_false (not (text_eq c.driver (units "openai-codex")))
        (not (text_eq c.source_provider (units "codex"))) (not (is_stable_id c.source_stable_id))
        h in
    (
      text_eq_sound c.driver (units "openai-codex") (negated _ driver),
      text_eq_sound c.source_provider (units "codex") (negated _ provider),
      negated _ stable,
    )

good_candidates :
    (cs : List MaterialCandidate) → any is_bad_candidate cs ≡ false → All IsCandidate cs
good_candidates [] h = tt
good_candidates (c ∷ cs) h =
    (good-IsCandidate c (ground (arith, h)), good_candidates cs (ground (arith, h)))

-- The model is of a valid coordinate that was not seen, is served in turn by one or more candidates, all
-- of the managed provider.
abbrev pub IsMaterial : (Text → Text) → List Text → MaterialModel → Type 0
IsMaterial lower seen m =
    (c : Coordinate) × (coordinate lower m.source ≡ ok c)
    × (contains (coordinate_key c) seen ≡ false)
    × (m.protocol ≡ units "openai")
    × (m.selection ≡ units "equal_round_robin")
    × (length m.candidates ≢ 0)
    × All IsCandidate m.candidates

module _ (lower : Text → Text) where
  -- every model is material for the keys of the models before it
  abbrev pub AreMaterial : List Text → List MaterialModel → Type 0
  AreMaterial seen [] = Unit
  AreMaterial seen (m ∷ ms) =
      (known : IsMaterial lower seen m) × AreMaterial (coordinate_key known.0 ∷ seen) ms

  check_sets-AreMaterial :
      (seen : List Text) (ms : List MaterialModel) {u : Unit {0}}
      → check_sets lower seen ms ≡ ok u
      → AreMaterial seen ms
  unfolding check_sets
  check_sets-AreMaterial seen [] h = tt
  check_sets-AreMaterial seen (m ∷ ms) h =
      let (c, e, h1) = >>=-eq-ok (coordinate lower m.source) _ h in
      let (_, f, h2) =
        >>=-eq-ok
          (throw_if
            (contains (coordinate_key c) seen
              || not (text_eq m.protocol (units "openai"))
              || not (text_eq m.selection (units "equal_round_robin"))
              || length m.candidates == 0
              || any is_bad_candidate m.candidates)
            _)
          _ h1 in
      let (new, protocol, selection, some_given, good) =
        five_false (contains (coordinate_key c) seen) (not (text_eq m.protocol (units "openai")))
          (not (text_eq m.selection (units "equal_round_robin"))) (length m.candidates == 0)
          (any is_bad_candidate m.candidates) (throw_if-eq-ok _ _ f) in
      (
        (
          c,
          e,
          new,
          text_eq_sound m.protocol (units "openai") (negated _ protocol),
          text_eq_sound m.selection (units "equal_round_robin") (negated _ selection),
          ground arith,
          good_candidates m.candidates good,
        ),
        check_sets-AreMaterial (coordinate_key c ∷ seen) ms h2,
      )

  -- Candidate sets that are returned are a rearrangement of the models given, in which no key is less than
  -- a key before it; there are between one and the limit; and every model is of the protocol and the
  -- selection of the managed routes, has a valid coordinate that no model before it has, and candidates,
  -- all of the managed driver and provider and of stable identities.
  pub candidate_sets-AreMaterial :
      (models sets : List MaterialModel)
      → candidate_sets lower models ≡ ok sets
      → Perm models sets
        × IsSorted model_key sets
        × (length models ≢ 0)
        × (length models ≤ max_models)
        × AreMaterial [] models
  unfolding candidate_sets
  candidate_sets-AreMaterial models sets h =
      let (_, e, h1) =
        >>=-eq-ok (throw_if (length models == 0 || ltb max_models (length models)) _) _ h in
      let (_, f, h2) = >>=-eq-ok (check_sets lower [] models) _ h1 in
      let bounds = throw_if-eq-ok (length models == 0 || ltb max_models (length models)) _ e in
      (
        subst (Perm models) (ok_inj h2) (sort_by-Perm model_key models),
        subst (IsSorted model_key) (ok_inj h2) (sort_by-IsSorted model_key models),
        ground arith,
        ground arith,
        check_sets-AreMaterial [] models f,
      )
