-- ===== src/Policy/Keys.antt =====
-- The keys of the identities that the import reads are distinct.
use memeloop_token_center_mi.Policy.Build.{identities_from}
use memeloop_token_center_mi.Policy.Parse.{
  flag, is_object, grants_of, grant_key, NativePolicy, policy_of, policies_from,
  parse_native_policy,
}
use memeloop_token_center_mi.Json.Parser.{Fields, Value, str}
use memeloop_token_center_mi.Policy.Schema.{
  list, is_one, once, object, source_policy_key_hash, hex, uuid,
}
use memeloop_token_center_mi.Common.{
  ℕ, suc, ◌≡◌, refl, sym, ap, ◌∙◌, ◌⊎◌, inl, inr, Bool, true, false, not, ◌||◌, Option, some, List,
  [], ◌∷◌, map, Text, units, text_eq, text_eq_sound, text_eq_refl, contains, length, arith,
  Bool-cases, All, ok, ok_inj, >>=-eq-ok, throw_if-eq-ok, throw_if, ◌==◌,
}
use mathlib.Core.Path.{subst}
use memeloop_token_center_mi.Routes.Schema.{get}
use memeloop_token_center_mi.Routes.Sorting.{IsDistinct, unseen_split}
use memeloop_token_center_mi.Policy.Plan.{Identity, key_by_hash}

abbrev pub hashes : List NativePolicy → List Text
hashes ps = map (λ (p : NativePolicy). p.key_hash) ps

abbrev pub keys : List Identity → List Text
keys is = map (λ (i : Identity). i.key_id) is

pub neither_of : (a b : Bool) → (a || b) ≡ false → (a ≡ false) × (b ≡ false)
neither_of a b h = ground arith

pub or_false : (a b : Bool) → a ≡ false → b ≡ false → (a || b) ≡ false
or_false a b h k = ground arith

cons-IsDistinct :
    {A : Type 0} (name : A → Text) (k : Text) (seen : List Text) (x : A) (xs : List A)
    → name x ≡ k
    → contains k seen ≡ false
    → All (λ y. contains (name y) (k ∷ seen) ≡ false) xs × IsDistinct (map name xs)
    → All (λ y. contains (name y) seen ≡ false) (x ∷ xs) × IsDistinct (map name (x ∷ xs))
cons-IsDistinct name k seen x xs e fresh (new, d) =
    let (apart, rest) = unseen_split name k seen xs new in
    ((ap (λ t. contains t seen) e ∙ fresh, rest), (ap (λ t. contains t (map name xs)) e ∙ apart, d))

module _ (lower : Text → Text) (whole : Bool → Text → Option ℕ) where
  module _ (before : Text → Text → Bool) where
    key_hash-policy_of :
        (r : Fields) (key_hash : Text) (p : NativePolicy)
        → policy_of lower whole before r key_hash ≡ ok p
        → p.key_hash ≡ key_hash
    unfolding policy_of
    key_hash-policy_of r key_hash p h =
        let (enabled, _, h1) = >>=-eq-ok (flag (get (units "enabled") r) _) _ h in
        let (vs, _, h2) = >>=-eq-ok (list (get (units "grants") r) 500 _) _ h1 in
        let (grants, _, h3) = >>=-eq-ok (grants_of vs _) _ h2 in
        let (_, _, h4) =
          >>=-eq-ok (throw_if (not (once lower whole (map grant_key grants))) _) _ h3 in
        sym (ap (λ (q : NativePolicy). q.key_hash) (ok_inj h4))

    -- what one round of the loop over the policies says
    policies_round :
        (index : ℕ) (seen : List Text) (v : Value) (vs : List Value) (ps : List NativePolicy)
        → policies_from lower whole before index seen (v ∷ vs) ≡ ok ps
        → (p : NativePolicy) × (rest : List NativePolicy) × (contains p.key_hash seen ≡ false)
          × (policies_from lower whole before (suc index) (p.key_hash ∷ seen) vs ≡ ok rest)
          × ((p ∷ rest) ≡ ps)
    unfolding policies_from
    policies_round index seen v vs ps h =
        let (r, _, h1) = >>=-eq-ok (object (some v) _ _) _ h in
        let (key_hash, _, h2) =
          >>=-eq-ok (source_policy_key_hash lower whole (get (units "key_hash") r) _) _ h1 in
        let (_, fresh, h3) = >>=-eq-ok (throw_if (contains key_hash seen) _) _ h2 in
        let (p, read, h4) = >>=-eq-ok (policy_of lower whole before r key_hash) _ h3 in
        let (rest, more, h5) =
          >>=-eq-ok (policies_from lower whole before (suc index) (key_hash ∷ seen) vs) _ h4 in
        let e = key_hash-policy_of r key_hash p read in
        (
          p,
          rest,
          ap (λ t. contains t seen) e ∙ throw_if-eq-ok (contains key_hash seen) _ fresh,
          ap (λ t. policies_from lower whole before (suc index) (t ∷ seen) vs) e ∙ more,
          ok_inj h5,
        )

    policies_from-IsDistinct :
        (index : ℕ) (seen : List Text) (vs : List Value) (ps : List NativePolicy)
        → policies_from lower whole before index seen vs ≡ ok ps
        → All (λ (p : NativePolicy). contains p.key_hash seen ≡ false) ps × IsDistinct (hashes ps)
    unfolding policies_from
    policies_from-IsDistinct index seen [] ps h =
        subst
          (λ (qs : List NativePolicy).
            All (λ (p : NativePolicy). contains p.key_hash seen ≡ false) qs
            × IsDistinct (hashes qs))
          (ok_inj h) (tt, tt)
    policies_from-IsDistinct index seen (v ∷ vs) ps h =
        let (p, rest, fresh, more, e) = policies_round index seen v vs ps h in
        subst
          (λ (qs : List NativePolicy).
            All (λ (p : NativePolicy). contains p.key_hash seen ≡ false) qs
            × IsDistinct (hashes qs))
          e
          (cons-IsDistinct (λ (p : NativePolicy). p.key_hash) p.key_hash seen p rest refl fresh
            (policies_from-IsDistinct (suc index) (p.key_hash ∷ seen) vs rest more))

    pub parse_native_policy-IsDistinct :
        (document : Option Value) (ps : List NativePolicy)
        → parse_native_policy lower whole before document ≡ ok ps
        → IsDistinct (hashes ps)
    unfolding parse_native_policy
    parse_native_policy-IsDistinct document ps h =
        let (root, _, h1) = >>=-eq-ok (object document _ _) _ h in
        let (_, _, h2) =
          >>=-eq-ok (throw_if (not (is_one lower whole (get (units "version") root))) _) _ h1 in
        let (_, _, h3) = >>=-eq-ok (throw_if (not (is_object (get (units "usage") root))) _) _ h2 in
        let (vs, _, h4) = >>=-eq-ok (list (get (units "policies") root) 100_000 _) _ h3 in
        let (_, _, h5) = >>=-eq-ok (throw_if (length vs == 0) _) _ h4 in
        (policies_from-IsDistinct 0 [] vs ps h5).1

  identities_round :
      (is_finite : Bool → Text → Bool) (decode : List ℕ → Option Text)
      (seen_hashes seen : List Text) (i : Identity) (is known : List Identity)
      → identities_from lower whole is_finite decode seen_hashes seen (i ∷ is) ≡ ok known
      → (j : Identity) × (rest : List Identity) × (contains j.key_id seen ≡ false)
        × (identities_from lower whole is_finite decode
              (j.source_hash ∷ seen_hashes)
              (j.key_id ∷ seen)
              is
            ≡ ok rest)
        × ((j ∷ rest) ≡ known)
  unfolding identities_from
  identities_round is_finite decode seen_hashes seen i is known h =
      let (hash, _, h1) = >>=-eq-ok (hex lower whole (some (str i.source_hash)) _) _ h in
      let (key, _, h2) = >>=-eq-ok (uuid lower whole (some (str i.key_id)) _) _ h1 in
      let (_, fresh, h3) =
        >>=-eq-ok (throw_if (contains hash seen_hashes || contains key seen) _) _ h2 in
      let (rest, more, h4) =
        >>=-eq-ok
          (identities_from lower whole is_finite decode (hash ∷ seen_hashes) (key ∷ seen) is) _
          h3 in
      let new = throw_if-eq-ok (contains hash seen_hashes || contains key seen) _ fresh in
      (
        record { source_hash = hash; key_id = key },
        rest,
        (neither_of (contains hash seen_hashes) (contains key seen) new).1,
        more,
        ok_inj h4,
      )

  pub identities_from-IsDistinct :
      (is_finite : Bool → Text → Bool) (decode : List ℕ → Option Text)
      (seen_hashes seen : List Text) (is known : List Identity)
      → identities_from lower whole is_finite decode seen_hashes seen is ≡ ok known
      → All (λ (i : Identity). contains i.key_id seen ≡ false) known × IsDistinct (keys known)
  unfolding identities_from
  identities_from-IsDistinct is_finite decode seen_hashes seen [] known h =
      subst
        (λ (js : List Identity).
          All (λ (i : Identity). contains i.key_id seen ≡ false) js × IsDistinct (keys js))
        (ok_inj h) (tt, tt)
  identities_from-IsDistinct is_finite decode seen_hashes seen (i ∷ is) known h =
      let (j, rest, fresh, more, e) =
        identities_round is_finite decode seen_hashes seen i is known h in
      subst
        (λ (js : List Identity).
          All (λ (i : Identity). contains i.key_id seen ≡ false) js × IsDistinct (keys js))
        e
        (cons-IsDistinct (λ (i : Identity). i.key_id) j.key_id seen j rest refl fresh
          (identities_from-IsDistinct is_finite decode (j.source_hash ∷ seen_hashes)
            (j.key_id ∷ seen) is rest more))

key_of-keys :
    (hash k : Text) (is : List Identity)
    → key_by_hash hash is ≡ some k
    → contains k (keys is) ≡ true
unfolding key_by_hash
key_of-keys hash k [] h = cc
key_of-keys hash k (i ∷ is) h = elim (Bool-cases (text_eq hash i.source_hash)) [
  | inl here ↦
      let found : ◌≡◌ {A = Option Text} (some i.key_id) (some k) =
        sym (rw (key_by_hash, here) refl) ∙ h in
      let e : i.key_id ≡ k = cc in ground (arith, ap (λ t. text_eq k t) e ∙ text_eq_refl k)
  | inr there ↦ ground (arith, key_of-keys hash k is (sym (rw (key_by_hash, there) refl) ∙ h))
]

key_step :
    (hash k : Text) (i : Identity) (is : List Identity)
    → key_by_hash hash (i ∷ is) ≡ some k
    → ((hash ≡ i.source_hash) × (i.key_id ≡ k)) ⊎ (key_by_hash hash is ≡ some k)
unfolding key_by_hash
key_step hash k i is h = elim (Bool-cases (text_eq hash i.source_hash)) [
  | inl here ↦
      let found : ◌≡◌ {A = Option Text} (some i.key_id) (some k) =
        sym (rw (key_by_hash, here) refl) ∙ h in
      inl (text_eq_sound hash i.source_hash here, cc)
  | inr there ↦ inr (sym (rw (key_by_hash, there) refl) ∙ h)
]

twice :
    (i : Identity) (k : Text) (is : List Identity)
    → contains i.key_id (keys is) ≡ false
    → i.key_id ≡ k
    → contains k (keys is) ≡ true
    → ⊥
twice i k is new e again =
    let both : contains k (keys is) ≡ false = sym (ap (λ t. contains t (keys is)) e) ∙ new in cc

-- Two hashes of one key are one.
pub key_by_hash_inj :
    (is : List Identity) (a b k : Text)
    → IsDistinct (keys is)
    → key_by_hash a is ≡ some k
    → key_by_hash b is ≡ some k
    → text_eq a b ≡ true
unfolding key_by_hash
key_by_hash_inj [] a b k d h j = cc
key_by_hash_inj (i ∷ is) a b k (new, d) h j = elim (key_step a k i is h) [
  | inl (e, mine) ↦ elim (key_step b k i is j) [
    | inl (f, _) ↦ sym (ap (λ t. text_eq a t) (e ∙ sym f)) ∙ text_eq_refl a
    | inr later ↦ absurd (twice i k is new mine (key_of-keys b k is later))
  ]
  | inr first ↦ elim (key_step b k i is j) [
    | inl (_, mine) ↦ absurd (twice i k is new mine (key_of-keys a k is first))
    | inr later ↦ key_by_hash_inj is a b k d first later
  ]
]
