-- ===== src/Policy/Distinct.antt =====
-- The keys of a plan are distinct: no two policies have one hash, and no two identities one key.
use memeloop_token_center_mi.Policy.Sorting.{sort_policies-IsDistinct}
use memeloop_token_center_mi.Policy.Build.{no_counts, is_some, check_identities}
use memeloop_token_center_mi.Policy.Parse.{RouteMapping, NativePolicy}
use memeloop_token_center_mi.Policy.Replay.{item_keys}
use memeloop_token_center_mi.Policy.Matching.{keys-items_of}
use memeloop_token_center_mi.Common.{
  ℕ, ◌≡◌, refl, sym, ap, ◌∙◌, inl, inr, Bool, true, false, not, Option, some, List, [], ◌∷◌, map,
  Text, text_eq, text_eq_sound, contains, any, length, Bool-cases, Option-cases, All, ok,
  throw_if-eq-ok, ◌==◌,
}
use mathlib.Core.Path.{subst}
use memeloop_token_center_mi.Routes.Sorting.{IsDistinct}
use memeloop_token_center_mi.Policy.Plan.{Identity, key_by_hash, or_no_key, sort_policies, items_of}
use memeloop_token_center_mi.Policy.Keys.{hashes, keys, neither_of, or_false, key_by_hash_inj}

-- the key that a plan grants to for a policy
abbrev key_for : List Identity → NativePolicy → Text
key_for known p = or_no_key (key_by_hash p.key_hash known)

abbrev HasKey : List Identity → NativePolicy → Type 0
HasKey known p = (k : Text) × (key_by_hash p.key_hash known ≡ some k)

check_identities-HasKey :
    (ps : List NativePolicy) (known : List Identity)
    → any (λ (p : NativePolicy). not (is_some (key_by_hash p.key_hash known))) ps ≡ false
    → All (HasKey known) ps
check_identities-HasKey [] known h = tt
check_identities-HasKey (p ∷ ps) known h = elim (Option-cases (key_by_hash p.key_hash known)) [
  | inl e ↦ let impossible : true ≡ false = sym (rw (e) refl) ∙ h in cc
  | inr (k, e) ↦ ((k, e), check_identities-HasKey ps known (sym (rw (e) refl) ∙ h))
]

other_keys :
    (known : List Identity) (p : NativePolicy) (ps : List NativePolicy)
    → IsDistinct (keys known)
    → HasKey known p
    → All (HasKey known) ps
    → contains p.key_hash (hashes ps) ≡ false
    → contains (key_for known p) (map (key_for known) ps) ≡ false
other_keys known p [] d h all_found apart = refl
other_keys known p (q ∷ ps) d (k, e) ((l, f), found) apart = elim (Bool-cases (text_eq k l)) [
  | inl same ↦
      let equal = text_eq_sound k l same in
      let one_hash =
        key_by_hash_inj known p.key_hash q.key_hash k d e (f ∙ ap (λ t. some t) (sym equal)) in
      let (not_one, _) =
        neither_of (text_eq p.key_hash q.key_hash) (contains p.key_hash (hashes ps)) apart in
      let impossible : true ≡ false = sym one_hash ∙ not_one in cc
  | inr other ↦
      let (_, apart_rest) =
        neither_of (text_eq p.key_hash q.key_hash) (contains p.key_hash (hashes ps)) apart in
      or_false (text_eq (key_for known p) (key_for known q))
        (contains (key_for known p) (map (key_for known) ps))
        ((λ i. text_eq (or_no_key (e i)) (or_no_key (f i))) ∙ other)
        (other_keys known p ps d (k, e) found apart_rest)
]

keys_for-IsDistinct :
    (known : List Identity) (ps : List NativePolicy)
    → IsDistinct (keys known)
    → All (HasKey known) ps
    → IsDistinct (hashes ps)
    → IsDistinct (map (key_for known) ps)
keys_for-IsDistinct known [] d h k = tt
keys_for-IsDistinct known (p ∷ ps) d (found, h) (apart, k) =
    (other_keys known p ps d found h apart, keys_for-IsDistinct known ps d h k)

-- No two items of a plan that is built are for one key.
module _ (lower : Text → Text) (whole : Bool → Text → Option ℕ) (is_finite : Bool → Text → Bool)
    (decode : List ℕ → Option Text) (before : Text → Text → Bool) (sha : List ℕ → Text) where
  pub items-IsDistinct :
      (ps : List NativePolicy) (mappings : List RouteMapping) (known : List Identity)
      → IsDistinct (hashes ps)
      → IsDistinct (keys known)
      → check_identities ps known ≡ ok tt
      → IsDistinct (item_keys (items_of known mappings (sort_policies before ps) no_counts).0)
  unfolding check_identities
  items-IsDistinct ps mappings known one_each d h =
      let (_, found) =
        neither_of (not (length known == length ps))
          (any (λ (p : NativePolicy). not (is_some (key_by_hash p.key_hash known))) ps)
          (throw_if-eq-ok _ _ h) in
      subst IsDistinct (sym (keys-items_of known mappings (sort_policies before ps) no_counts)) (
        sort_policies-IsDistinct before (key_for known) ps
          (keys_for-IsDistinct known ps d (check_identities-HasKey ps known found) one_each))
