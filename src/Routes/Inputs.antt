-- ===== src/Routes/Inputs.antt =====
-- What the readers of the configuration and of the accounts let through.
use mathlib.Core.Path.{subst}
use memeloop_token_center_mi.Common.{
  ◌⊎◌, ◌↔◌, kept_if, text_eq_refl, ℕ, ◌≡◌, ◌≢◌, refl, sym, ap, ◌∙◌, inl, inr, Bool, true, false,
  ◌||◌, ◌==◌, Option, none, some, String, List, [], ◌∷◌, Text, units, text_eq, if◌then◌else◌,
  length, All, arith, Bool-cases, any, ok, err, >>=-eq-ok, ok_inj,
}
use memeloop_token_center_mi.Json.Parser.{Value, null, bool, int, real, str, arr, obj}
use memeloop_token_center_mi.Routes.Schema.{
  failure, RouteFailure, Checked, source_text, is_bad_part, is_source_text,
}
use memeloop_token_center_mi.Routes.Regexp.{
  cons_text, not_empty, is_meta, literal_from, literal_go_regexp,
}

differs : (s t : Text) → text_eq s t ≡ false → s ≢ t
differs s t h e = ground (arith, h, ap (text_eq s) (sym e), text_eq_refl s)

pub good_part :
    (part : Text)
    → is_bad_part part ≡ false
    → (length part ≢ 0) × (part ≢ units ".") × (part ≢ units "..")
good_part part h = (
  ground (arith, h),
  λ e. differs part (units ".") (ground (arith, h)) e,
  λ e. differs part (units "..") (ground (arith, h)) e,
)

pub good_parts :
    (parts : List Text)
    → any is_bad_part parts ≡ false
    → All (λ part. is_bad_part part ≡ false) parts
good_parts [] h = tt
good_parts (p ∷ parts) h = (ground (arith, h), good_parts parts (ground (arith, h)))

kept :
    (good : Bool) (s t : Text) (e : RouteFailure)
    → good ≡ true
    → ◌≡◌ {A = Checked Text} (if good then ok s else err e) (ok t)
    → s ≡ t
kept true s t e g h = ok_inj h
kept false s t e g h = cc

refused :
    (good : Bool) (s t : Text) (e : RouteFailure)
    → good ≡ false
    → ◌≡◌ {A = Checked Text} (if good then ok s else err e) (ok t)
    → ⊥
refused true s t e g h = cc
refused false s t e g h = cc

pub source_text_ok :
    (v : Option Value) (label : String) (t : Text)
    → source_text v label ≡ ok t
    → (v ≡ some (str t)) × (is_source_text t ≡ true)
unfolding source_text
source_text_ok none label t h = cc
source_text_ok (some null) label t h = cc
source_text_ok (some (bool b)) label t h = cc
source_text_ok (some (int n m)) label t h = cc
source_text_ok (some (real n s)) label t h = cc
source_text_ok (some (arr vs)) label t h = cc
source_text_ok (some (obj fs)) label t h = cc
source_text_ok (some (str s)) label t h = elim (Bool-cases (is_source_text s)) [
  | inl good ↦ (
    ap (λ x. some (str x)) (kept (is_source_text s) s t _ good h),
    ap is_source_text (sym (kept (is_source_text s) s t _ good h)) ∙ good,
  )
  | inr bad ↦ absurd (refused (is_source_text s) s t _ bad h)
]

-- the characters that RE2 does not read as themselves: \ . ^ $ * + ? ( ) [ ] { } |
abbrev pub specials : Text
specials = 0x5c ∷ units ".^$*+?()[]{}|"

abbrev pub is_special : ℕ → Bool
is_special c = any (λ d. c == d) specials

-- A pattern of RE2 that matches one text and no other: every character stands for itself, the special ones
-- behind a backslash.
pub data Stands : Text → Text → Type 0 where
  empty : Stands [] []
  plain : {c : ℕ} {p t : Text} → is_special c ≡ false → Stands p t → Stands (c ∷ p) (c ∷ t)
  escaped : {c : ℕ} {p t : Text} → is_special c ≡ true → Stands p t → Stands (0x5c ∷ c ∷ p) (c ∷ t)

special_meta : (c : ℕ) → is_special c ≡ (c == 0x5c || is_meta c)
special_meta c = ground arith

or_left : (a b : Bool) → (a || b) ≡ false → a ≡ false
or_left true b h = cc
or_left false b h = refl

or_right : (a b : Bool) → (a || b) ≡ false → b ≡ false
or_right true b h = cc
or_right false b h = h

-- what a pattern stands for, behind a backslash or not
abbrev Behind : Bool → Text → Text → Type 0
Behind true p t = Stands (0x5c ∷ p) t
Behind false p t = Stands p t

module _ (c : ℕ) (u : String) (t : Text) where
  taken :
      (special : Bool) (rest : Checked Text)
      → (if special then cons_text c rest else err (failure u)) ≡ ok t
      → (special ≡ true) × ((s : Text) × (rest ≡ ok s) × (c ∷ s ≡ t))
  taken true (ok s) h = (refl, (s, refl, ok_inj h))
  taken true (err e) h = cc
  taken false rest h = cc

  read :
      (slash meta : Bool) (behind rest : Checked Text)
      → (if slash then behind else if meta then err (failure u) else cons_text c rest) ≡ ok t
      → ((slash ≡ true) × (behind ≡ ok t))
        ⊎ ((slash || meta ≡ false) × ((s : Text) × (rest ≡ ok s) × (c ∷ s ≡ t)))
  read true meta behind rest h = inl (refl, h)
  read false true behind rest h = cc
  read false false behind (ok s) h = inr (refl, (s, refl, ok_inj h))
  read false false behind (err e) h = cc

backslash : (c : ℕ) → (c == 0x5c) ≡ true → c ≡ 0x5c
backslash c h = ground arith

literal_from-Stands :
    (u : String) (b : Bool) (p t : Text) → literal_from u b p ≡ ok t → Behind b p t
unfolding literal_from
literal_from-Stands u true [] t h = cc
literal_from-Stands u false [] t h = subst (Stands []) (ok_inj h) empty
literal_from-Stands u true (c ∷ p) t h =
    let (special, (s, e, f)) = taken c u t (c == 0x5c || is_meta c) (literal_from u false p) h in
    subst (Stands (0x5c ∷ c ∷ p)) f
      (escaped (special_meta c ∙ special) (literal_from-Stands u false p s e))
literal_from-Stands u false (c ∷ p) t h =
    elim (read c u t (c == 0x5c) (is_meta c) (literal_from u true p) (literal_from u false p) h) [
      | inl (slash, e) ↦
          subst (λ d. Stands (d ∷ p) t) (sym (backslash c slash)) (literal_from-Stands u true p t e)
      | inr (other, (s, e, f)) ↦
          subst (Stands (c ∷ p)) f
            (plain (special_meta c ∙ other) (literal_from-Stands u false p s e))
    ]

escape_step :
    (u : String) (c : ℕ) (x s : Text) (special : Bool)
    → (c == 0x5c || is_meta c) ≡ special
    → literal_from u false x ≡ ok s
    → literal_from u false (if special then 0x5c ∷ c ∷ x else c ∷ x) ≡ ok (c ∷ s)
unfolding literal_from
escape_step u c x s true e h = rw (literal_from, e, h) refl
escape_step u c x s false e h =
    rw (or_left (c == 0x5c) (is_meta c) e, or_right (c == 0x5c) (is_meta c) e, h) refl

Stands-literal_from : (u : String) (p t : Text) → Stands p t → literal_from u false p ≡ ok t
unfolding literal_from
Stands-literal_from u _ _ empty = refl
Stands-literal_from u _ _ (plain {c} {p} {t} h k) =
    escape_step u c p t false (sym (special_meta c) ∙ h) (Stands-literal_from u p t k)
Stands-literal_from u _ _ (escaped {c} {p} {t} h k) =
    escape_step u c p t true (sym (special_meta c) ∙ h) (Stands-literal_from u p t k)

nil_apart : (c : ℕ) (s : Text) → (c ∷ s) ≢ []
nil_apart c s e = cc

not_empty-eq-ok : (s t : Text) → not_empty s ≡ ok t → (s ≡ t) × (t ≢ [])
not_empty-eq-ok [] t h = cc
not_empty-eq-ok (c ∷ s) t h = (ok_inj h, λ e. nil_apart c s (ok_inj h ∙ e))

not_empty_ok : (t : Text) → t ≢ [] → not_empty t ≡ ok t
not_empty_ok [] h = absurd (h refl)
not_empty_ok (c ∷ t) h = refl

-- A text is read from a classify pattern exactly where the pattern is a source text that stands for this
-- text alone, which is not empty.
pub literal_go_regexp_iff :
    (p t : Text)
    → (literal_go_regexp (some (str p)) ≡ ok t)
      ↔ ((is_source_text p ≡ true) × Stands p t × (t ≢ []))
unfolding literal_go_regexp source_text
literal_go_regexp_iff p t = (
  λ h.
      let (value, e, h1) =
        >>=-eq-ok (source_text (some (str p)) "CPA key-policy classify rule pattern") _ h in
      let (literal, f, h2) =
        >>=-eq-ok
          (literal_from "CPA key-policy classify rule pattern uses an unsupported RE2 construct"
            false value)
          _ h1 in
      let (good, is) = kept_if (is_source_text p) p value _ e in
      let (same, some_text) = not_empty-eq-ok literal t h2 in
      let stands = literal_from-Stands _ false value literal f in
      (good, subst (λ q. Stands q t) (sym is) (subst (Stands value) same stands), some_text),
  λ (good, stands, some_text).
      rw
        (
          good,
          Stands-literal_from
              "CPA key-policy classify rule pattern uses an unsupported RE2 construct" p t stands,
        )
        (not_empty_ok t some_text),
)
