-- ===== src/Routes/Glob.antt =====
-- Glob patterns, written without the parts into which `wildcard` splits them.
use mathlib.Core.List.{append_assoc, append-nil}
use memeloop_token_center_mi.Common.{
  ℕ, zero, suc, ◌≤◌, drop, length, length-append, ◌≡◌, refl, sym, ap, ◌∙◌, Bool, true, false, some,
  List, [], ◌∷◌, ◌++◌, Text, text_eq_refl, ◌==◌, if◌then◌else◌, arith, inl, inr, Option-cases,
}
use memeloop_token_center_mi.Json.Parser.{behind}
use memeloop_token_center_mi.Routes.Strings.{ends_with, find_behind, split, push_first}
use memeloop_token_center_mi.Routes.Wildcard.{last, skip_middles, wildcard_parts, wildcard}

-- What the head of a pattern stands for, the rest of the text being `M`.
abbrev pub Head : Bool → ℕ → (Text → Type 0) → Text → Type 0
Head true c M s = (u : Text) × (t : Text) × (s ≡ u ++ t) × M t
Head false c M s = (t : Text) × (s ≡ c ∷ t) × M t

-- A star stands for any text, every other unit for itself.
unfoldable pub Matches : Text → Text → Type 0
Matches [] s = s ≡ []
Matches (c ∷ p) s = Head (c == b'*') c (Matches p) s

-- The same for the parts of a pattern between its stars.
abbrev pub Glob : Text → List Text → Text → Type 0
Glob p [] s = s ≡ p
Glob p (q ∷ ps) s = (g : Text) × (t : Text) × (s ≡ p ++ (g ++ t)) × Glob q ps t

abbrev pub GlobParts : List Text → Text → Type 0
GlobParts [] s = ⊥
GlobParts (p ∷ ps) s = Glob p ps s

pub behind_append : (p s : Text) → behind p (p ++ s) ≡ some s
unfolding behind
behind_append [] s = refl
behind_append (c ∷ p) s = ground (arith, behind_append p s)

behind-drop : (p s r : Text) → behind p s ≡ some r → r ≡ drop (length p) s
unfolding behind
behind-drop [] s r h = cc
behind-drop (a ∷ p) [] r h = cc
behind-drop (a ∷ p) (c ∷ s) r h = ground (arith, behind-drop p s r)

drop-append : (n : ℕ) (s t : Text) → n ≤ length s → drop n (s ++ t) ≡ drop n s ++ t
drop-append zero s t h = refl
drop-append (suc n) [] t h = absurd (omega arith)
drop-append (suc n) (c ∷ s) t h = drop-append n s t (omega arith)

-- What stands behind an occurrence found no later than one that is there.
drop-behind :
    (q g t : Text) {r : Text} → behind q (g ++ (q ++ t)) ≡ some r → (h : Text) × (r ≡ h ++ t)
drop-behind q g t h = (
  drop (length q) (g ++ q),
  behind-drop q (g ++ (q ++ t)) _ h
      ∙ ap (drop (length q)) (sym (append_assoc g q t))
      ∙ drop-append (length q) (g ++ q) t (omega (arith, length-append g q)),
)

find_behind-now : (q s r : Text) → behind q s ≡ some r → find_behind q s ≡ some r
unfolding find_behind
find_behind-now q [] r h = h
find_behind-now q (c ∷ s) r h = rw (find_behind, h) refl

find_behind_append : (q g t : Text) → (h : Text) × (find_behind q (g ++ (q ++ t)) ≡ some (h ++ t))
unfolding find_behind
find_behind_append q [] t = ([], find_behind-now q (q ++ t) t (behind_append q t))
find_behind_append q (c ∷ g) t = elim (Option-cases (behind q (c ∷ g ++ (q ++ t)))) [
  | inl later ↦ let (h, e) = find_behind_append q g t in (h, rw (find_behind, later) e)
  | inr (rest, now) ↦
      let (h, e) = drop-behind q (c ∷ g) t now in (h, find_behind-now q _ rest now ∙ ap some e)
]

ends_with_refl : (q : Text) → ends_with q q ≡ true
unfolding ends_with
ends_with_refl [] = refl
ends_with_refl (c ∷ q) = ground (arith, text_eq_refl (c ∷ q))

pub ends_with_append : (g q : Text) → ends_with q (g ++ q) ≡ true
unfolding ends_with
ends_with_append [] q = ends_with_refl q
ends_with_append (c ∷ g) q = ground (arith, ends_with_append g q)

-- The search for the middle parts succeeds from every earlier place.
skip_middles-Glob :
    (h q : Text) (ps : List Text) (s : Text)
    → Glob q ps s
    → (t : Text) × (skip_middles (q ∷ ps) (h ++ s) ≡ some t)
unfolding skip_middles
skip_middles-Glob h q [] s m = (h ++ s, refl)
skip_middles-Glob h q (r ∷ ps) s (g, t, e, m) =
    let (k, found) = find_behind_append q h (g ++ t) in
    let (u, rest) = skip_middles-Glob (k ++ g) r ps t m in
    (u, rw (e, skip_middles, found, sym (append_assoc k g t)) rest)

Glob-suffix :
    (p : Text) (ps : List Text) (s : Text) → Glob p ps s → (g : Text) × (s ≡ g ++ last p ps)
Glob-suffix p [] s e = ([], e)
Glob-suffix p (q ∷ ps) s (g, t, e, m) =
    let (h, f) = Glob-suffix q ps t m in
    (
      p ++ (g ++ h),
      e
          ∙ ap (λ x. p ++ (g ++ x)) f
          ∙ ap (λ x. p ++ x) (sym (append_assoc g h (last q ps)))
          ∙ sym (append_assoc p (g ++ h) (last q ps)),
    )

Glob-ends_with :
    (p : Text) (ps : List Text) (s : Text) → Glob p ps s → ends_with (last p ps) s ≡ true
Glob-ends_with p ps s m =
    let (g, e) = Glob-suffix p ps s m in
    ap (ends_with (last p ps)) e ∙ ends_with_append g (last p ps)

Glob-starts :
    (p : Text) (ps : List Text) (s : Text)
    → Glob p ps s
    → (t : Text) × (u : Text) × (behind p s ≡ some t) × (skip_middles ps t ≡ some u)
unfolding skip_middles
Glob-starts p [] s e = ([], [], ap (behind p) (e ∙ sym (append-nil p)) ∙ behind_append p [], refl)
Glob-starts p (q ∷ ps) s (g, t, e, m) =
    let (u, found) = skip_middles-Glob g q ps t m in
    (g ++ t, u, rw e (behind_append p (g ++ t)), found)

wildcard_parts-Glob :
    (p : Text) (ps : List Text) (s : Text) → Glob p ps s → wildcard_parts (p ∷ ps) s ≡ true
unfolding wildcard_parts
wildcard_parts-Glob p ps s m =
    let (t, u, start, middle) = Glob-starts p ps s m in
    rw (wildcard_parts, start, middle) (Glob-ends_with p ps s m)

push_first-Glob :
    (c : ℕ) (ps : List Text) (s : Text) → GlobParts ps s → GlobParts (push_first c ps) (c ∷ s)
push_first-Glob c [] s m = absurd m
push_first-Glob c (p ∷ []) s m = ap (λ x. c ∷ x) m
push_first-Glob c (p ∷ q ∷ ps) s (g, t, e, m) = (g, t, ap (λ x. c ∷ x) e, m)

star-Glob : (ps : List Text) (u t : Text) → GlobParts ps t → GlobParts ([] ∷ ps) (u ++ t)
star-Glob [] u t m = absurd m
star-Glob (p ∷ ps) u t m = (u, t, refl, m)

split_step :
    (star : Bool) (c : ℕ) (p s : Text)
    → ((t : Text) → Matches p t → GlobParts (split b'*' p) t)
    → Head star c (Matches p) s
    → GlobParts (if star then [] ∷ split b'*' p else push_first c (split b'*' p)) s
split_step true c p s rec (u, t, e, m) = rw e (star-Glob (split b'*' p) u t (rec t m))
split_step false c p s rec (t, e, m) = rw e (push_first-Glob c (split b'*' p) t (rec t m))

split-Matches : (p s : Text) → Matches p s → GlobParts (split b'*' p) s
unfolding Matches split
split-Matches [] s m = m
split-Matches (c ∷ p) s m = split_step (c == b'*') c p s (split-Matches p) m

wildcard-GlobParts : (ps : List Text) (s : Text) → GlobParts ps s → wildcard_parts ps s ≡ true
wildcard-GlobParts [] s m = absurd m
wildcard-GlobParts (p ∷ ps) s m = wildcard_parts-Glob p ps s m

module _ (lower : Text → Text) where
  -- Whatever a pattern matches as a glob, both in lower case, the wildcard test matches too.
  pub wildcard-Matches :
      (pattern' value : Text)
      → Matches (lower pattern') (lower value)
      → wildcard lower pattern' value ≡ true
  unfolding wildcard
  wildcard-Matches pattern' value m =
      wildcard-GlobParts (split b'*' (lower pattern')) (lower value)
        (split-Matches (lower pattern') (lower value) m)
