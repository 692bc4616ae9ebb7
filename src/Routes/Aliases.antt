-- ===== src/Routes/Aliases.antt =====
-- The aliases that `normalizeAliases` keeps.
use memeloop_token_center_mi.Routes.Config.{
  is_bad_name, string_of, clean_alias, keep_alias, aliases_from, normalize_aliases,
}
use memeloop_token_center_mi.Routes.Regexp.{max_models}
use memeloop_token_center_mi.Routes.Schema.{invalid_schema, Checked, items, get, object}
use memeloop_token_center_mi.Routes.Sorting.{unseen_split, IsDistinct}
use mathlib.Core.Path.{subst}
use memeloop_token_center_mi.Common.{
  ◌≡◌, refl, inl, inr, Bool, true, false, ◌||◌, Option, none, some, String, List, [], ◌∷◌, Text,
  units, text_eq, contains, if◌then◌else◌, length, All, arith, Bool-cases, map, ok, err, >>=-eq-ok,
  ltb, ok_inj,
}
use memeloop_token_center_mi.Json.Parser.{Value, null, bool, int, real, str, arr, obj}
use memeloop_token_center_mi.Routes.Strings.{trim}
use memeloop_token_center_mi.Routes.Wildcard.{Alias}

not_dropped :
    (bad : Bool) (a b : Alias)
    → ◌≡◌ {A = Option Alias} (if bad then none else some a) (some b)
    → (bad ≡ false) × (a ≡ b)
not_dropped true a b h = cc
not_dropped false a b h = (refl, cc)

module _ (lower : Text → Text) where
  -- No alias is usable under a name that it shares with an earlier one, nor stands for itself.
  abbrev pub AreUsable : List Text → List Alias → Type 0
  AreUsable seen xs =
      All (λ (a : Alias). contains (lower a.alias) seen ≡ false) xs
      × IsDistinct (map (λ (a : Alias). lower a.alias) xs)
      × All (λ (a : Alias). text_eq (lower a.name) (lower a.alias) ≡ false) xs

  add_usable :
      (seen : List Text) (a : Alias) (bs : List Alias)
      → contains (lower a.alias) seen ≡ false
      → text_eq (lower a.name) (lower a.alias) ≡ false
      → AreUsable (lower a.alias ∷ seen) bs
      → AreUsable seen (a ∷ bs)
  add_usable seen a bs fresh other (new, distinct', fine) =
      let (apart, before) =
        unseen_split (λ (b : Alias). lower b.alias) (lower a.alias) seen bs new in
      ((fresh, before), (apart, distinct'), (other, fine))

  keep_alias-AreUsable :
      (seen : List Text) (o : Option Alias) (more : List Text → Checked (List Alias))
      (xs : List Alias)
      → ((a : Alias) → o ≡ some a → text_eq (lower a.name) (lower a.alias) ≡ false)
      → ((ks : List Text) (bs : List Alias) → more ks ≡ ok bs → AreUsable ks bs)
      → keep_alias lower seen o more ≡ ok xs
      → AreUsable seen xs
  keep_alias-AreUsable seen none more xs fine rec h = rec seen xs h
  keep_alias-AreUsable seen (some a) more xs fine rec h =
      elim (Bool-cases (contains (lower a.alias) seen)) [
        | inl again ↦ rec seen xs (ground (arith, h, again))
        | inr fresh ↦
            let (bs, others, e) =
              >>=-eq-ok (more (lower a.alias ∷ seen)) (λ rest. ok (a ∷ rest))
                (ground (arith, h, fresh)) in
            subst (AreUsable seen) (ok_inj e)
              (add_usable seen a bs fresh (fine a refl) (rec (lower a.alias ∷ seen) bs others))
      ]

  clean_alias_other :
      (name alias : Option Text) (a : Alias)
      → clean_alias lower name alias ≡ some a
      → text_eq (lower a.name) (lower a.alias) ≡ false
  unfolding clean_alias
  clean_alias_other none _ a h = cc
  clean_alias_other (some n) none a h = cc
  clean_alias_other (some n) (some m) a h =
      let (good, is) =
        not_dropped
          (is_bad_name (trim n)
            || is_bad_name (trim m)
            || text_eq (lower (trim n)) (lower (trim m)))
          _ a h in
      subst (λ (b : Alias). text_eq (lower b.name) (lower b.alias) ≡ false) is
        (ground (arith, good))

  aliases_from-AreUsable :
      (label : String) (values : List Value) (seen : List Text) (xs : List Alias)
      → aliases_from lower label values seen ≡ ok xs
      → AreUsable seen xs
  unfolding aliases_from
  aliases_from-AreUsable label [] seen xs h = subst (AreUsable seen) (ok_inj h) (tt, tt, tt)
  aliases_from-AreUsable label (item ∷ rest) seen xs h =
      let (entry, _, h) = >>=-eq-ok (object (some item) label) _ h in
      keep_alias-AreUsable seen _ _ xs
        (clean_alias_other (string_of (get (units "name") entry))
          (string_of (get (units "alias") entry)))
        (λ ks bs. aliases_from-AreUsable label rest ks bs) h

  aliases_empty :
      (xs : List Alias) → ◌≡◌ {A = Checked (List Alias)} (ok []) (ok xs) → AreUsable [] xs
  aliases_empty xs h = subst (AreUsable []) (ok_inj h) (tt, tt, tt)

  bounded_aliases :
      (large : Bool) (label : String) (values : List Value) (xs : List Alias)
      → (if large then err (invalid_schema label) else aliases_from lower label values []) ≡ ok xs
      → AreUsable [] xs
  bounded_aliases true label values xs h = cc
  bounded_aliases false label values xs h = aliases_from-AreUsable label values [] xs h

  -- In a list of aliases that was read, no two aliases are equal in lower case, and none is equal to
  -- the name that it stands for.
  pub normalize_aliases-AreUsable :
      (v : Option Value) (label : String) (xs : List Alias)
      → normalize_aliases lower v label ≡ ok xs
      → AreUsable [] xs
  unfolding normalize_aliases
  normalize_aliases-AreUsable none label xs h = aliases_empty xs h
  normalize_aliases-AreUsable (some null) label xs h = aliases_empty xs h
  normalize_aliases-AreUsable (some (arr vs)) label xs h =
      bounded_aliases (ltb max_models (length (items vs))) label (items vs) xs h
  normalize_aliases-AreUsable (some (bool b)) label xs h = cc
  normalize_aliases-AreUsable (some (int n m)) label xs h = cc
  normalize_aliases-AreUsable (some (real n s)) label xs h = cc
  normalize_aliases-AreUsable (some (str s)) label xs h = cc
  normalize_aliases-AreUsable (some (obj fs)) label xs h = cc
