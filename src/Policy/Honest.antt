-- ===== src/Policy/Honest.antt =====
-- What the import relies on from the control API: reading changes no routing and tells the one there
-- is, and a replacement concerns one key.
use memeloop_token_center_mi.Common.{
  ℕ, ◌≡◌, refl, inl, inr, ap, Bool, true, false, ◌&&◌, Option, none, some, List, [], ◌∷◌, Text,
  text_eq, text_eq_sound, text_eq_refl, ◌==◌, if◌then◌else◌, length, ok, arith, Bool-cases,
}
use memeloop_token_center_mi.Policy.Schema.{same}
use memeloop_token_center_mi.Policy.Plan.{ImportPlanItem}
use memeloop_token_center_mi.Policy.Answers.{Routing, routing}
use memeloop_token_center_mi.Policy.Act.{Act}
use memeloop_token_center_mi.Policy.Execute.{
  TargetClient, is_planned, routing_path, replacement, read_routing,
}

-- the routes and the route groups granted to a key
abbrev pub Granted : Type 0
Granted = List Text × List Text

abbrev pub shown : Routing → Granted
shown r = (r.route_ids, r.route_group_ids)

-- what the plan wants for an item's key
abbrev pub wanted : ImportPlanItem → Granted
wanted item = (item.route_ids, [])

-- The abstract import: every item's key gets exactly the item's routes, one after the other.
abbrev pub grant_one : ImportPlanItem → (Text → Granted) → Text → Granted
grant_one item v key = if text_eq key item.key_id then wanted item else v key

abbrev pub grant_all : List ImportPlanItem → (Text → Granted) → Text → Granted
grant_all [] v key = v key
grant_all (item ∷ rest) v key = grant_all rest (grant_one item v) key

pub grant_one_ext :
    (item : ImportPlanItem) (v w : Text → Granted)
    → ((key : Text) → v key ≡ w key)
    → (key : Text) → grant_one item v key ≡ grant_one item w key
grant_one_ext item v w h key = ap (λ x. if text_eq key item.key_id then wanted item else x) (h key)

pub grant_all_ext :
    (items : List ImportPlanItem) (v w : Text → Granted)
    → ((key : Text) → v key ≡ w key)
    → (key : Text) → grant_all items v key ≡ grant_all items w key
grant_all_ext [] v w h key = h key
grant_all_ext (item ∷ rest) v w h key =
    grant_all_ext rest (grant_one item v) (grant_one item w) (grant_one_ext item v w h) key

-- Where one key is granted what is wanted and no other changes, one item was granted.
pub one_granted :
    (item : ImportPlanItem) (v w : Text → Granted) (key : Text)
    → w item.key_id ≡ wanted item
    → (text_eq key item.key_id ≡ false → w key ≡ v key)
    → w key ≡ grant_one item v key
one_granted item v w key h k = elim (Bool-cases (text_eq key item.key_id)) [
  | inl e ↦ rw (e, text_eq_sound key item.key_id e) h
  | inr e ↦ rw (e) (k e)
]

pub same_sound : (ss ts : List Text) → same ss ts ≡ true → ss ≡ ts
same_sound [] [] h = refl
same_sound [] (t ∷ ts) h = cc
same_sound (s ∷ ss) [] h = cc
same_sound (s ∷ ss) (t ∷ ts) h = ground (arith, same_sound ss ts, text_eq_sound s t, h)

pub same_refl : (ss : List Text) → same ss ss ≡ true
same_refl [] = refl
same_refl (s ∷ ss) = rw (text_eq_refl s) (same_refl ss)

no_elements : {A : Type 0} (xs : List A) → (length xs == 0) ≡ true → xs ≡ []
no_elements [] h = refl
no_elements (x ∷ xs) h = ground arith

pub both_true : (a b : Bool) → (a && b) ≡ true → (a ≡ true) × (b ≡ true)
both_true a b h = ground arith

pub is_planned-shown :
    (r : Routing) (item : ImportPlanItem) → is_planned r item ≡ true → shown r ≡ wanted item
is_planned-shown r item h =
    let (routes, groups) =
      both_true (same r.route_ids item.route_ids) (length r.route_group_ids == 0) h in
    let e = same_sound r.route_ids item.route_ids routes in
    let f = no_elements r.route_group_ids groups in cc

pub shown-is_planned :
    (r : Routing) (item : ImportPlanItem) → shown r ≡ wanted item → is_planned r item ≡ true
shown-is_planned r item h =
    let e : r.route_ids ≡ item.route_ids = ap (λ g. g.0) h in
    let f : r.route_group_ids ≡ [] = ap (λ g. g.1) h in rw (e, f, same_refl item.route_ids) refl

module _ {S : Type 0} (lower : Text → Text) (whole : Bool → Text → Option ℕ) (encode : Text → Text)
    (client : TargetClient S) (tenant : Text) (view : S → Text → Granted) where
  pub record IsHonest : Type 0 where
    pub read_keeps :
        (path : Text) (s : S) (key : Text) → view (client.read path s).1 key ≡ view s key
    pub read_tells :
        (item : ImportPlanItem) (s : S) (r : Routing)
        → (read_routing lower whole encode client tenant item s).0 ≡ ok r
        → shown r ≡ view s item.key_id
    pub put_tells :
        (item : ImportPlanItem) (revision : ℕ) (s : S) (r : Routing)
        → let answer = client.put (routing_path item) (replacement tenant item revision) s in
          ((v : _) × (answer.0 ≡ ok v) × (routing lower whole v item.key_id ≡ ok r))
          → shown r ≡ view answer.1 item.key_id
    pub put_others :
        (item : ImportPlanItem) (revision : ℕ) (s : S) (key : Text)
        → text_eq key item.key_id ≡ false
        → view (client.put (routing_path item) (replacement tenant item revision) s).1 key
          ≡ view s key

-- Reporting the progress changes no routing.
abbrev pub IsQuiet : {S : Type 0} → (S → Text → Granted) → Option (ℕ → Act S (Unit {0})) → Type 0
IsQuiet view none = Unit
IsQuiet view (some write) =
    (completed : ℕ) (s : _) (key : Text) → view (write completed s).1 key ≡ view s key
