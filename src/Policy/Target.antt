-- ===== src/Policy/Target.antt =====
-- A target with one key and one route, which is granted or not: an instance of what the import relies on.
use memeloop_token_center_mi.Policy.Failures.{IsKeptOrPlanned, IsAtomic}
use memeloop_token_center_mi.Common.{
  ◌>>◌, ℕ, ◌≡◌, refl, sym, ap, ◌∙◌, inl, inr, Bool, true, false, not, ◌&&◌, List, [], ◌∷◌, ◌++◌,
  Text, units, text_eq, text_eq_sound, if◌then◌else◌, ok, err, ok_inj, Bool-cases, >>=-eq-ok,
  throw_unless-eq-ok, throw_if,
}
use mathlib.Core.Path.{subst}
use memeloop_token_center_mi.Routes.Schema.{get}
use memeloop_token_center_mi.Routes.Strings.{
  sort_by, insert, less, distinct_from, trim, trim_start, is_blank, byte_length,
}
use memeloop_token_center_mi.Policy.Schema.{
  string, list, number, integer, uuid, uuids, uuid_units, unique_sorted, failure, Imported,
}
use mathlib.Core.List.{append_cancel_left, append_cancel_right}
use memeloop_token_center_mi.Json.Parser.{
  Value, bool, int, str, arr, obj, Items, nil, cons, field, end,
}
use memeloop_token_center_mi.Policy.Plan.{ImportPlanItem}
use memeloop_token_center_mi.Policy.Answers.{Routing, routing}
use memeloop_token_center_mi.Policy.Execute.{TargetClient, routing_path, replacement, read_routing}
use memeloop_token_center_mi.Policy.Honest.{Granted, both_true, shown, IsHonest}
use memeloop_token_center_mi.Policy.Samples.{key, route, account, no_reals, with}

abbrev pub live_list : Value
live_list = arr (
    cons
      (obj (
        with "id" (str route) (
          with "public_model" (str (units "gpt")) (
            with "upstream_model" (str (units "gpt-5")) (
              with "protocol" (str (units "openai")) (
                with "enabled" (bool true) (
                  with "updated_at" (int false 7) (
                    with "upstream_account_ids" (arr (cons (str account) nil)) (
                      with "candidate_upstream_account_ids" (arr (cons (str account) nil))
                        end)))))))))
      nil)

abbrev granted_ids : Bool → Items
granted_ids true = cons (str route) nil
granted_ids false = nil

abbrev held : Bool → List Text
held true = route ∷ []
held false = []

abbrev answer_of : Bool → Value
answer_of granted = obj (
    with "key_id" (str key) (
      with "route_ids" (arr (granted_ids granted))
        (with "route_group_ids" (arr nil) (with "grant_revision" (int false 1) end))))

abbrev is_list_path : Text → Bool
is_list_path path =
    text_eq path (units "/internal/v1/model-routes?tenant_external_id=team-1&limit=100")

abbrev key_path : Text
key_path = units "/internal/v1/keys/" ++ key ++ units "/routing"

-- the replacement asks for the one route
abbrev asks_for_route : Value → Bool
asks_for_route (obj (field _ _ (field _ (arr (cons (str r) nil)) _))) = text_eq r route
asks_for_route _ = false

-- what a replacement answers and leaves
abbrev put_answer : Bool → Bool → Imported Value × Bool
put_answer true granted = (ok (answer_of true), true)
put_answer false granted =
    (err (failure (units "target control API rejected the migration operation")), granted)

abbrev is_for_key : Text → Value → Bool
is_for_key path body = text_eq path key_path && asks_for_route body

abbrev pub target : TargetClient Bool
target = record {
  read = λ path granted. (ok (if is_list_path path then live_list else answer_of granted), granted);
  put = λ path body granted. put_answer (is_for_key path body) granted;
}

abbrev pub view : Bool → Text → Granted
view granted k = if text_eq k key then (held granted, []) else ([], [])

abbrev pub same_text : Text → Text
same_text t = t

abbrev routing_of : Bool → Routing
routing_of granted = record { route_ids = held granted; route_group_ids = []; revision = 1 }

answer_read :
    (granted : Bool) (k : Text)
    → routing same_text no_reals (answer_of granted) k ≡ (
        throw_if
          (not (text_eq key k))
          (failure (units "target credential routing response is invalid"))
        >> ok (routing_of granted))
unfolding routing get string list number integer uuid uuids uuid_units unique_sorted trim trim_start
    is_blank byte_length sort_by insert less distinct_from
answer_read true k = refl
answer_read false k = refl

-- An answer is read for its key only, and says what is held.
read_answer :
    (granted : Bool) (k : Text) (r : Routing)
    → routing same_text no_reals (answer_of granted) k ≡ ok r
    → (key ≡ k) × (routing_of granted ≡ r)
read_answer granted k r h =
    let (_, e, f) =
      >>=-eq-ok (throw_if (not (text_eq key k)) _) (λ _. ok (routing_of granted))
        (sym (answer_read granted k) ∙ h) in
    (text_eq_sound key k (throw_unless-eq-ok (text_eq key k) _ e), ok_inj f)

view_own : (granted : Bool) (k : Text) → key ≡ k → view granted k ≡ (held granted, [])
view_own granted k e = subst (λ t. view granted t ≡ (held granted, [])) e refl

told :
    (granted : Bool) (k : Text) (r : Routing)
    → routing same_text no_reals (answer_of granted) k ≡ ok r
    → shown r ≡ view granted k
told granted k r h =
    let (e, f) = read_answer granted k r h in ap (λ x. shown x) (sym f) ∙ sym (view_own granted k e)

no_routing_listed : (k : Text) (r : Routing) → routing same_text no_reals live_list k ≡ ok r → ⊥
unfolding routing
no_routing_listed k r h = cc

told_at :
    (listed granted : Bool) (k : Text) (r : Routing)
    → routing same_text no_reals (if listed then live_list else answer_of granted) k ≡ ok r
    → shown r ≡ view granted k
told_at true granted k r h = absurd (no_routing_listed k r h)
told_at false granted k r h = told granted k r h

told_put :
    (b granted : Bool) (k : Text) (r : Routing) (v : Value)
    → (put_answer b granted).0 ≡ ok v
    → routing same_text no_reals v k ≡ ok r
    → shown r ≡ view (put_answer b granted).1 k
told_put true granted k r v e f =
    told true k r (ap (λ x. routing same_text no_reals x k) (ok_inj e) ∙ f)
told_put false granted k r v e f = cc

asked_ids :
    (ids : List Text) (revision : ℕ)
    → asks_for_route
        (replacement (units "team-1") (record { key_id = key; route_ids = ids }) revision)
      ≡ true
    → ids ≡ route ∷ []
unfolding replacement
asked_ids [] revision h = cc
asked_ids (r ∷ []) revision h = ap (λ t. t ∷ []) (text_eq_sound r route h)
asked_ids (r ∷ q ∷ ids) revision h = cc

item_is_for_key :
    (item : ImportPlanItem) (revision : ℕ)
    → is_for_key (routing_path item) (replacement (units "team-1") item revision) ≡ true
    → (item.key_id ≡ key) × (item.route_ids ≡ route ∷ [])
unfolding routing_path replacement
item_is_for_key item revision h =
    let (path, body) =
      both_true (text_eq (routing_path item) key_path)
        (asks_for_route (replacement (units "team-1") item revision)) h in
    let cut_end = append_cancel_right item.key_id key (units "/routing") (
      append_cancel_left (units "/internal/v1/keys/") (item.key_id ++ units "/routing")
        (key ++ units "/routing") (text_eq_sound (routing_path item) key_path path)) in
    (cut_end, asked_ids item.route_ids revision body)

others_kept :
    (b granted : Bool) (k : Text)
    → (b ≡ true → text_eq k key ≡ false)
    → view (put_answer b granted).1 k ≡ view granted k
others_kept true granted k h = rw (h refl) refl
others_kept false granted k h = refl

pub target-IsHonest : IsHonest same_text no_reals same_text target (units "team-1") view
unfolding read_routing
target-IsHonest = record {
  read_keeps = λ path s k. refl;
  read_tells = λ item s r h.
      told_at (is_list_path (routing_path item ++ units "?tenant_external_id=" ++ units "team-1")) s
        item.key_id r h;
  put_tells = λ item revision s r (v, e, f).
      told_put (is_for_key (routing_path item) (replacement (units "team-1") item revision)) s
        item.key_id r v e f;
  put_others = λ item revision s k h.
      others_kept (is_for_key (routing_path item) (replacement (units "team-1") item revision)) s k
        (λ b. ap (λ t. text_eq k t) (sym (item_is_for_key item revision b).0) ∙ h);
}

replaced_or_kept :
    (b granted : Bool) (item : ImportPlanItem) (k : Text)
    → (b ≡ true → (item.key_id ≡ key) × (item.route_ids ≡ route ∷ []))
    → IsKeptOrPlanned true (item ∷ []) k (view granted k) (view (put_answer b granted).1 k)
replaced_or_kept false granted item k h = inl refl
replaced_or_kept true granted item k h = elim (Bool-cases (text_eq k key)) [
  | inl mine ↦ inr (
    refl,
    inl (
      ap (λ t. text_eq k t) (h refl).0 ∙ mine,
      rw (mine) (ap (λ (ids : List Text). (ids, [])) (sym (h refl).1)),
    ),
  )
  | inr other ↦ inl (rw (other) refl)
]

pub target-IsAtomic :
    IsAtomic same_text no_reals same_text target (units "team-1") view target-IsHonest
target-IsAtomic item revision s k =
    replaced_or_kept (is_for_key (routing_path item) (replacement (units "team-1") item revision)) s
      item k (item_is_for_key item revision)
