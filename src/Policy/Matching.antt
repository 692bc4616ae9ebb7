-- ===== src/Policy/Matching.antt =====
-- The routes that the grants of a policy are mapped to.
use memeloop_token_center_mi.Common.{
  ◌≡◌, refl, sym, ap, ◌∙◌, inl, inr, Bool, true, false, ◌&&◌, ◌||◌, none, some, List, [], ◌∷◌, ◌++◌,
  map, Text, text_eq, text_eq_sound, contains, any, if◌then◌else◌, arith, Option-cases, All,
  All-map, Any,
}
use memeloop_token_center_mi.Routes.Strings.{sort_by, insert}
use memeloop_token_center_mi.Policy.Parse.{SourceGrant, NativePolicy, RouteMapping, grant_key}
use memeloop_token_center_mi.Policy.Plan.{
  Identity, ImportPlanItem, Counts, count_matched, count_missing, mapping_by_grant, add_id,
  match_grants, key_by_hash, or_no_key, item_of, items_of,
}

-- A grant is mapped to the route.
abbrev pub is_mapped_to : List RouteMapping → Text → SourceGrant → Bool
is_mapped_to mappings id g = elim (mapping_by_grant (grant_key g) mappings) [
  | some m ↦ text_eq id m.expected.route_id
  | none ↦ false
]

abbrev pub HasMapping : List RouteMapping → SourceGrant → Type 0
HasMapping mappings g = (m : RouteMapping) × (mapping_by_grant (grant_key g) mappings ≡ some m)

contains_last :
    (id x : Text) (ids : List Text)
    → contains id (ids ++ x ∷ []) ≡ (text_eq id x || contains id ids)
contains_last id x [] = refl
contains_last id x (y ∷ ids) = ground (arith, contains_last id x ids)

contains_same :
    (id x : Text) (ids : List Text) → text_eq id x ≡ true → contains id ids ≡ contains x ids
contains_same id x ids h = ap (λ t. contains t ids) (text_eq_sound id x h)

contains-add_id :
    (id x : Text) (ids : List Text) → contains id (add_id x ids) ≡ (text_eq id x || contains id ids)
unfolding add_id
contains-add_id id x ids = ground (arith, contains_last id x ids, contains_same id x ids)

pub contains-match_grants :
    (mappings : List RouteMapping) (gs : List SourceGrant) (ids : List Text) (counts : Counts)
    (id : Text)
    → contains id (match_grants mappings gs ids counts).0
      ≡ (contains id ids || any (is_mapped_to mappings id) gs)
unfolding match_grants
contains-match_grants mappings [] ids counts id = ground arith
contains-match_grants mappings (g ∷ gs) ids counts id =
    elim (Option-cases (mapping_by_grant (grant_key g) mappings)) [
      | inl e ↦
          rw (match_grants, is_mapped_to, e)
            (contains-match_grants mappings gs ids (count_missing counts) id)
      | inr (m, e) ↦
          rw (match_grants, is_mapped_to, e)
            (contains-match_grants mappings gs (add_id m.expected.route_id ids)
                (count_matched counts) id
              ∙ ground (arith, contains-add_id id m.expected.route_id ids))
    ]

-- Where no grant was counted as missing, every grant has a mapping.
pub missing-match_grants :
    (mappings : List RouteMapping) (gs : List SourceGrant) (ids : List Text) (counts : Counts)
    → (match_grants mappings gs ids counts).1.missing ≡ 0
    → (counts.missing ≡ 0) × All (HasMapping mappings) gs
unfolding match_grants
missing-match_grants mappings [] ids counts h = (h, tt)
missing-match_grants mappings (g ∷ gs) ids counts h =
    elim (Option-cases (mapping_by_grant (grant_key g) mappings)) [
      | inl e ↦
          let step : match_grants mappings (g ∷ gs) ids counts
              ≡ match_grants mappings gs ids (count_missing counts) =
            rw (match_grants, e) refl in
          let (k, _) =
            missing-match_grants mappings gs ids (count_missing counts)
              (ap (λ r. r.1.missing) (sym step) ∙ h) in
          absurd (omega (arith, k))
      | inr (m, e) ↦
          let step : match_grants mappings (g ∷ gs) ids counts
              ≡ match_grants mappings gs (add_id m.expected.route_id ids) (count_matched counts) =
            rw (match_grants, e) refl in
          let (k, rest) =
            missing-match_grants mappings gs (add_id m.expected.route_id ids) (count_matched counts)
              (ap (λ r. r.1.missing) (sym step) ∙ h) in
          (k, ((m, e), rest))
    ]

contains-insert :
    (id t : Text) (ts : List Text)
    → contains id (insert (λ x. x) t ts) ≡ (text_eq id t || contains id ts)
unfolding insert
contains-insert id t [] = refl
contains-insert id t (x ∷ ts) = ground (arith, contains-insert id t ts)

pub contains-sort :
    (id : Text) (ts : List Text) → contains id (sort_by (λ x. x) ts) ≡ contains id ts
unfolding sort_by
contains-sort id [] = refl
contains-sort id (t ∷ ts) =
    ground (arith, contains-insert id t (sort_by (λ x. x) ts), contains-sort id ts)

-- The item has the key of the policy, and exactly the routes that the policy's grants are mapped to.
abbrev pub IsItemOf : List Identity → List RouteMapping → ImportPlanItem → NativePolicy → Type 0
IsItemOf known mappings item p =
    (item.key_id ≡ or_no_key (key_by_hash p.key_hash known))
    × ((id : Text)
        → contains id item.route_ids ≡ (p.enabled && any (is_mapped_to mappings id) p.grants))

abbrev pub IsCovered : List RouteMapping → NativePolicy → Type 0
IsCovered mappings p = p.enabled ≡ true → All (HasMapping mappings) p.grants

-- What a choice by a flag keeps of the case where the flag is set.
chosen_contains :
    (b : Bool) (r : List Text × Counts) (counts : Counts) (id : Text) (x : Bool)
    → contains id r.0 ≡ x
    → contains id (if b then r else ([], counts)).0 ≡ (b && x)
chosen_contains true r counts id x h = h
chosen_contains false r counts id x h = refl

chosen_missing :
    (b : Bool) (r : List Text × Counts) (counts : Counts) (C : Type 0)
    → (r.1.missing ≡ 0 → (counts.missing ≡ 0) × C)
    → (if b then r else ([], counts)).1.missing ≡ 0
    → (counts.missing ≡ 0) × (b ≡ true → C)
chosen_missing true r counts C k h = let (e, c) = k h in (e, λ _. c)
chosen_missing false r counts C k h = (h, λ e. cc)

pub item_of-IsItemOf :
    (known : List Identity) (mappings : List RouteMapping) (p : NativePolicy) (counts : Counts)
    → IsItemOf known mappings (item_of known mappings p counts).0 p
unfolding item_of
item_of-IsItemOf known mappings p counts = (
  refl,
  λ id.
      contains-sort id _
      ∙ chosen_contains p.enabled (match_grants mappings p.grants [] counts) counts id
          (any (is_mapped_to mappings id) p.grants)
          (contains-match_grants mappings p.grants [] counts id),
)

missing-item_of :
    (known : List Identity) (mappings : List RouteMapping) (p : NativePolicy) (counts : Counts)
    → (item_of known mappings p counts).1.missing ≡ 0
    → (counts.missing ≡ 0) × IsCovered mappings p
unfolding item_of
missing-item_of known mappings p counts h =
    chosen_missing p.enabled (match_grants mappings p.grants [] counts) counts
      (All (HasMapping mappings) p.grants) (missing-match_grants mappings p.grants [] counts) h

pub items_of-IsItemOf :
    (known : List Identity) (mappings : List RouteMapping) (ps : List NativePolicy)
    (counts : Counts)
    → All (λ item. Any (IsItemOf known mappings item) ps) (items_of known mappings ps counts).0
unfolding items_of
items_of-IsItemOf known mappings [] counts = tt
items_of-IsItemOf known mappings (p ∷ ps) counts =
    let first = item_of known mappings p counts in
    (
      inl (item_of-IsItemOf known mappings p counts),
      All-map (items_of known mappings ps first.1).0 (λ item h. inr h)
          (items_of-IsItemOf known mappings ps first.1),
    )

pub missing-items_of :
    (known : List Identity) (mappings : List RouteMapping) (ps : List NativePolicy)
    (counts : Counts)
    → (items_of known mappings ps counts).1.missing ≡ 0
    → (counts.missing ≡ 0) × All (IsCovered mappings) ps
unfolding items_of
missing-items_of known mappings [] counts h = (h, tt)
missing-items_of known mappings (p ∷ ps) counts h =
    let first = item_of known mappings p counts in
    let (e, rest) = missing-items_of known mappings ps first.1 h in
    let (f, mine) = missing-item_of known mappings p counts e in (f, (mine, rest))

pub keys-items_of :
    (known : List Identity) (mappings : List RouteMapping) (ps : List NativePolicy)
    (counts : Counts)
    → map (λ (item : ImportPlanItem). item.key_id) (items_of known mappings ps counts).0
      ≡ map (λ (p : NativePolicy). or_no_key (key_by_hash p.key_hash known)) ps
unfolding items_of item_of
keys-items_of known mappings [] counts = refl
keys-items_of known mappings (p ∷ ps) counts =
    ap (λ ks. or_no_key (key_by_hash p.key_hash known) ∷ ks)
      (keys-items_of known mappings ps (item_of known mappings p counts).1)
