-- ===== src/Stage/Readers.antt =====
-- What the readers of paths and of exclusions let through.
use memeloop_token_center_mi.Common.{
  kept_if, kept_unless, ℕ, ◌≤◌, ◌≡◌, ◌≢◌, refl, sym, ap, ◌∙◌, Bool, true, false, ◌||◌, Option, none,
  some, List, [], ◌∷◌, Text, units, ◌==◌, any, length, ok, All, All-map, arith, String,
}
use mathlib.Core.Path.{subst}
use memeloop_token_center_mi.Json.Parser.{behind}
use memeloop_token_center_mi.Json.Number.{safe_integer_max}
use memeloop_token_center_mi.Routes.Strings.{starts_with, split}
use memeloop_token_center_mi.Routes.Schema.{is_bad_part}
use memeloop_token_center_mi.Routes.Inputs.{good_part, good_parts}
use memeloop_token_center_mi.Stage.Options.{
  CopyRequest, Arguments, is_path, path_value, is_bad_segment, relative_directory,
}

-- An absolute path without a NUL.
abbrev pub IsPath : Text → Type 0
IsPath p = ((s : Text) × (p ≡ b'/' ∷ s)) × All (λ c. c ≢ 0) p

-- A path below a directory: no empty, "." or ".." segment, no NUL, backslash or star.
abbrev pub IsRelative : Text → Type 0
IsRelative p =
    All (λ part. (length part ≢ 0) × (part ≢ units ".") × (part ≢ units "..")) (split b'/' p)
    × All (λ c. (c ≢ 0) × (c ≢ 0x5c) × (c ≢ b'*')) p

-- Requests, exclusions and a checkpoint whose texts satisfy a predicate, and limits in their ranges.
abbrev pub BothSatisfy : (Text → Type 0) → CopyRequest → Type 0
BothSatisfy P r = P r.source × P r.target

abbrev pub OptionSatisfies : (Text → Type 0) → Option Text → Type 0
OptionSatisfies P none = Unit
OptionSatisfies P (some p) = P p

abbrev pub Satisfies : (Text → Type 0) → (Text → Type 0) → Arguments → Type 0
Satisfies P Q a =
    All (BothSatisfy P) a.copies
    × All (BothSatisfy P) a.auth_directories
    × All Q a.excluded
    × OptionSatisfies P a.checkpoint
    × (a.uid ≤ 0xffff_ffff)
    × (a.gid ≤ 0xffff_ffff)
    × (a.max_bytes ≤ safe_integer_max)

abbrev pub AreValid : Arguments → Type 0
AreValid = Satisfies IsPath IsRelative

abbrev pub IsTaken : Text → Type 0
IsTaken p = is_path p ≡ true

abbrev pub IsKept : Text → Type 0
IsKept p = relative_directory p ≡ ok p

-- What the loop keeps of its variables: the texts pass the readers again.
abbrev pub AreKept : Arguments → Type 0
AreKept = Satisfies IsTaken IsKept

any-All :
    (p : ℕ → Bool) (P : ℕ → Type 0) (s : Text)
    → ((c : ℕ) → p c ≡ false → P c)
    → any p s ≡ false
    → All P s
any-All p P [] f h = tt
any-All p P (c ∷ s) f h = (f c (ground (arith, h)), any-All p P s f (ground (arith, h)))

slash_first : (p : Text) → starts_with (units "/") p ≡ true → (s : Text) × (p ≡ b'/' ∷ s)
unfolding starts_with behind
slash_first [] h = cc
slash_first (c ∷ s) h = (s, ground (arith, h))

pub path_value-IsTaken :
    (v : Text) (label : String) (p : Text) → path_value v label ≡ ok p → IsTaken p
unfolding path_value
path_value-IsTaken v label p h =
    let (good, is) = kept_if (is_path v) v p _ h in subst IsTaken is good

pub IsTaken-IsPath : (p : Text) → IsTaken p → IsPath p
IsTaken-IsPath p good = (
  slash_first p (ground (arith, good)),
  any-All (λ c. c == 0) (λ c. c ≢ 0) p (λ c z. ground (arith, z)) (ground (arith, good)),
)

plain_parts : (parts : List Text) → any is_bad_segment parts ≡ false → any is_bad_part parts ≡ false
plain_parts [] h = refl
plain_parts (p ∷ parts) h = ground (arith, h, plain_parts parts)

relative_directory-eq :
    (v p : Text)
    → relative_directory v ≡ ok p
    → ((length v == 0
          || any (λ c. c == 0 || c == 0x5c || c == b'*') v
          || any is_bad_segment (split b'/' v))
        ≡ false)
      × (v ≡ p)
unfolding relative_directory
relative_directory-eq v p h = kept_unless _ v p _ h

pub relative_directory-IsKept : (v p : Text) → relative_directory v ≡ ok p → IsKept p
relative_directory-IsKept v p h =
    let (_, is) = relative_directory-eq v p h in ap relative_directory (sym is) ∙ h

IsKept-IsRelative : (p : Text) → IsKept p → IsRelative p
IsKept-IsRelative p h =
    let (good, _) = relative_directory-eq p p h in
    (
      All-map (split b'/' p) good_part
          (good_parts (split b'/' p) (plain_parts (split b'/' p) (ground (arith, good)))),
      any-All (λ c. c == 0 || c == 0x5c || c == b'*') (λ c. (c ≢ 0) × (c ≢ 0x5c) × (c ≢ b'*')) p
          (λ c z. (ground (arith, z), ground (arith, z), ground (arith, z))) (ground (arith, good)),
    )

BothSatisfy-IsPath : (r : CopyRequest) → BothSatisfy IsTaken r → BothSatisfy IsPath r
BothSatisfy-IsPath r (s, t) = (IsTaken-IsPath r.source s, IsTaken-IsPath r.target t)

OptionSatisfies-IsPath : (o : Option Text) → OptionSatisfies IsTaken o → OptionSatisfies IsPath o
OptionSatisfies-IsPath none h = tt
OptionSatisfies-IsPath (some p) h = IsTaken-IsPath p h

pub AreKept-AreValid : (a : Arguments) → AreKept a → AreValid a
AreKept-AreValid a (c, d, e, k, u, g, m) = (
  All-map a.copies BothSatisfy-IsPath c,
  All-map a.auth_directories BothSatisfy-IsPath d,
  All-map a.excluded IsKept-IsRelative e,
  OptionSatisfies-IsPath a.checkpoint k,
  u,
  g,
  m,
)
