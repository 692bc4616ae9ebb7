-- ===== src/Routes/Literals.antt =====
-- Where the wildcard test says more, or less, than a glob: patterns that end in a star, and patterns
-- without one.
use mathlib.Core.List.{append_assoc, append-nil}
use memeloop_token_center_mi.Common.{
  ℕ, length, length-append, ◌≡◌, refl, sym, ap, ◌∙◌, ◌↔◌, ◌⊎◌, ◌≢◌, Bool, true, false, some, List,
  [], ◌∷◌, ◌++◌, Text, any, ◌==◌, if◌then◌else◌, arith, inl, inr, Option-cases,
}
use memeloop_token_center_mi.Json.Parser.{behind}
use memeloop_token_center_mi.Routes.Strings.{ends_with, find_behind, split, push_first}
use memeloop_token_center_mi.Routes.Wildcard.{last, skip_middles, wildcard_parts, wildcard}
use memeloop_token_center_mi.Routes.Glob.{
  Head, Matches, Glob, GlobParts, behind_append, ends_with_append, wildcard-Matches,
}

behind_sound : (p s r : Text) → behind p s ≡ some r → s ≡ p ++ r
unfolding behind
behind_sound [] s r h = ground arith
behind_sound (a ∷ p) [] r h = cc
behind_sound (a ∷ p) (c ∷ s) r h = ground (arith, behind_sound p s r)

find_behind_sound : (q s r : Text) → find_behind q s ≡ some r → (g : Text) × (s ≡ g ++ (q ++ r))
unfolding find_behind
find_behind_sound q [] r h = ([], behind_sound q [] r h)
find_behind_sound q (c ∷ s) r h = elim (Option-cases (behind q (c ∷ s))) [
  | inl later ↦
      let (g, e) = find_behind_sound q s r (ground (arith, h, later)) in (c ∷ g, ap (λ x. c ∷ x) e)
  | inr (rest, now) ↦ ([], behind_sound q (c ∷ s) r (ground (arith, h, now)))
]

skip_step :
    (q r : Text) (ps : List Text) (s t : Text)
    → skip_middles (q ∷ r ∷ ps) s ≡ some t
    → (b : Text) × (find_behind q s ≡ some b) × (skip_middles (r ∷ ps) b ≡ some t)
unfolding skip_middles
skip_step q r ps s t h = ground (arith, h)

wildcard_steps :
    (p : Text) (ps : List Text) (s : Text)
    → wildcard_parts (p ∷ ps) s ≡ true
    → (b : Text) × (t : Text) × (behind p s ≡ some b)
      × (skip_middles ps b ≡ some t)
      × (ends_with (last p ps) s ≡ true)
unfolding wildcard_parts
wildcard_steps p ps s h = ground (arith, h)

-- The parts found in a text whose last part is empty make up a glob of an end of it.
skip_middles_sound :
    (q : Text) (ps : List Text) (s t : Text)
    → skip_middles (q ∷ ps) s ≡ some t
    → last q ps ≡ []
    → (g : Text) × (u : Text) × (s ≡ g ++ u) × Glob q ps u
unfolding skip_middles
skip_middles_sound q [] s t h e = (s, [], sym (append-nil s), sym e)
skip_middles_sound q (r ∷ ps) s t h e =
    let (b, found, rest) = skip_step q r ps s t h in
    let (g, f) = find_behind_sound q s b found in
    let (k, u, split', m) = skip_middles_sound r ps b t rest e in
    (g, q ++ (k ++ u), f ∙ ap (λ x. g ++ (q ++ x)) split', (k, u, refl, m))

wildcard_open :
    (p q : Text) (ps : List Text) (s : Text)
    → last q ps ≡ []
    → wildcard_parts (p ∷ q ∷ ps) s ≡ true
    → Glob p (q ∷ ps) s
unfolding wildcard_parts
wildcard_open p q ps s e h =
    let (b, t, start, middle, _) = wildcard_steps p (q ∷ ps) s h in
    let (g, u, split', m) = skip_middles_sound q ps b t middle e in
    (g, u, behind_sound p s b start ∙ ap (λ x. p ++ x) split', m)

pop_first :
    (c : ℕ) (ps : List Text) (s : Text)
    → GlobParts (push_first c ps) s
    → (t : Text) × (s ≡ c ∷ t) × (GlobParts ps t ⊎ (ps ≡ []))
pop_first c [] s e = ([], e, inr refl)
pop_first c (p ∷ []) s e = (p, e, inl refl)
pop_first c (p ∷ q ∷ ps) s (g, t, e, m) = (p ++ (g ++ t), e, inl (g, t, refl, m))

added_≢ : (star : Bool) (c : ℕ) (ps : List Text) → (if star then [] ∷ ps else push_first c ps) ≢ []
added_≢ true c ps h = cc
added_≢ false c [] h = cc
added_≢ false c (p ∷ ps) h = cc

split-≢ : (mark : ℕ) (s : Text) → split mark s ≢ []
unfolding split
split-≢ mark [] h = cc
split-≢ mark (c ∷ s) h = added_≢ (c == mark) c (split mark s) h

pop_star :
    (ps : List Text) (s : Text)
    → GlobParts ([] ∷ ps) s
    → ps ≢ []
    → (u : Text) × (t : Text) × (s ≡ u ++ t) × GlobParts ps t
pop_star [] s m n = absurd (n refl)
pop_star (p ∷ ps) s m n = m

join_step :
    (star : Bool) (c : ℕ) (p s : Text)
    → ((t : Text) → GlobParts (split b'*' p) t → Matches p t)
    → split b'*' p ≢ []
    → GlobParts (if star then [] ∷ split b'*' p else push_first c (split b'*' p)) s
    → Head star c (Matches p) s
join_step true c p s rec n m =
    let (u, t, e, k) = pop_star (split b'*' p) s m n in (u, t, e, rec t k)
join_step false c p s rec n m =
    let (t, e, k) = pop_first c (split b'*' p) s m in
    (t, e, rec t (elim k [ inl k ↦ k | inr none' ↦ absurd (n none') ]))

Matches-split : (p s : Text) → GlobParts (split b'*' p) s → Matches p s
unfolding Matches split
Matches-split [] s m = m
Matches-split (c ∷ p) s m = join_step (c == b'*') c p s (Matches-split p) (split-≢ b'*' p) m

-- The parts are two at least, and the last one is empty.
abbrev OpenParts : List Text → Type 0
OpenParts parts =
    (q : Text) × (r : Text) × (ps : List Text) × (parts ≡ q ∷ r ∷ ps) × (last r ps ≡ [])

open_step :
    (star : Bool) (c : ℕ) (parts : List Text)
    → OpenParts parts
    → OpenParts (if star then [] ∷ parts else push_first c parts)
open_step true c parts (q, r, ps, e, l) = ([], q, r ∷ ps, ap (λ x. [] ∷ x) e, l)
open_step false c parts (q, r, ps, e, l) = (c ∷ q, r, ps, ap (push_first c) e, l)

split-OpenParts : (p : Text) → OpenParts (split b'*' (p ++ b'*' ∷ []))
unfolding split
split-OpenParts [] = ([], [], [], refl, refl)
split-OpenParts (c ∷ p) = open_step (c == b'*') c (split b'*' (p ++ b'*' ∷ [])) (split-OpenParts p)

OpenParts-GlobParts :
    (parts : List Text) (s : Text)
    → OpenParts parts
    → wildcard_parts parts s ≡ true
    → GlobParts parts s
OpenParts-GlobParts parts s (q, r, ps, e, l) h =
    rw e (wildcard_open q r ps s l (ap (λ x. wildcard_parts x s) (sym e) ∙ h))

split_literal : (p : Text) → any (λ c. c == b'*') p ≡ false → split b'*' p ≡ p ∷ []
unfolding split
split_literal [] h = refl
split_literal (c ∷ p) h = ground (arith, h, split_literal p)

literal_wildcard : (p m : Text) → wildcard_parts (p ∷ []) (p ++ (m ++ p)) ≡ true
unfolding wildcard_parts skip_middles
literal_wildcard p m =
    rw (wildcard_parts, behind_append p (m ++ p))
      (ap (ends_with p) (sym (append_assoc p m p)) ∙ ends_with_append (p ++ m) p)

first_unit_alone :
    (star : Bool) (c : ℕ) (p s : Text) (M : Text → Type 0)
    → star ≡ false
    → ((t : Text) → M t → t ≡ p)
    → Head star c M s
    → s ≡ c ∷ p
first_unit_alone true c p s M e rec m = cc
first_unit_alone false c p s M e rec (t, f, m) = f ∙ ap (λ x. c ∷ x) (rec t m)

no_star_alone : (p s : Text) → any (λ c. c == b'*') p ≡ false → Matches p s → s ≡ p
unfolding Matches
no_star_alone [] s h m = m
no_star_alone (c ∷ p) s h m =
    first_unit_alone (c == b'*') c p s (Matches p) (ground (arith, h))
      (λ t. no_star_alone p t (ground (arith, h))) m

longer : (p m : Text) → p ++ (m ++ p) ≡ p → length p ≡ 0
longer p m h = omega (arith, ap length h, length-append p (m ++ p), length-append m p)

module _ (lower : Text → Text) where
  -- A pattern that ends in a star matches exactly what it matches as a glob, in lower case.
  pub wildcard_open_iff :
      (pattern' value p : Text)
      → lower pattern' ≡ p ++ b'*' ∷ []
      → (wildcard lower pattern' value ≡ true) ↔ Matches (p ++ b'*' ∷ []) (lower value)
  unfolding wildcard
  wildcard_open_iff pattern' value p e = (
    λ h. Matches-split (p ++ b'*' ∷ []) (lower value) (
        OpenParts-GlobParts (split b'*' (p ++ b'*' ∷ [])) (lower value) (split-OpenParts p)
          (ap (λ x. wildcard_parts (split b'*' x) (lower value)) (sym e) ∙ h)),
    λ m. wildcard-Matches lower pattern' value (rw e m),
  )

  -- A pattern without a star matches every value that begins and ends with it and holds more
  -- between the two, which the pattern, where it is not empty, does not match as a glob.
  pub wildcard_literal_overlap :
      (pattern' value m : Text)
      → any (λ c. c == b'*') (lower pattern') ≡ false
      → length (lower pattern') ≢ 0
      → lower value ≡ lower pattern' ++ (m ++ lower pattern')
      → (wildcard lower pattern' value ≡ true) × ¬ Matches (lower pattern') (lower value)
  unfolding wildcard
  wildcard_literal_overlap pattern' value m n l v = (
    rw (split_literal (lower pattern') n, v) (literal_wildcard (lower pattern') m),
    λ k. l (longer (lower pattern') m (sym v ∙ no_star_alone (lower pattern') (lower value) n k)),
  )
