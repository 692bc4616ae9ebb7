-- ===== src/Policy/Parse.antt =====
-- `grant`, `candidateSources`, `parseNativePolicy`, `parseRouteInventory` and `parseMapping`.
use memeloop_token_center_mi.Common.{
  ℕ, suc, Bool, true, false, not, ◌||◌, Option, none, some, List, [], ◌∷◌, ◌++◌, Text, units,
  text_eq, contains, ◌==◌, if◌then◌else◌, length, map, ok, err, throw_if, ◌>>=◌, ◌>>◌,
}
use memeloop_token_center_mi.Json.Parser.{Value, bool, int, str, arr, obj, nil, cons, Fields}
use memeloop_token_center_mi.Json.Print.{print, digits_of}
use memeloop_token_center_mi.Routes.Schema.{get}
use memeloop_token_center_mi.Policy.Schema.{
  invalid_schema, failure, Imported, same, object, partial_object, string, list, integer, is_one,
  uuid, source_policy_key_hash, unique_sorted, once,
}

pub record SourceGrant : Type 0 where
  pub provider : Option Text
  pub model : Option Text
  pub group : Option Text
  pub upstream_prefix : Option Text

pub record NativePolicy : Type 0 where
  pub key_hash : Text
  pub enabled : Bool
  pub grants : List SourceGrant

pub record CandidateSource : Type 0 where
  pub upstream_account_id : Text
  pub source_stable_id : Text

pub data Protocol : Type 0 where
  openai anthropic generation : Protocol

-- `enabled` is true of every one.
pub record InventoryRoute : Type 0 where
  pub route_id : Text
  pub public_model : Text
  pub upstream_model : Text
  pub protocol : Protocol
  pub updated_at : ℕ
  pub upstream_account_ids : List Text
  pub candidate_ids : List Text
  pub candidate_sources : List CandidateSource

pub record RouteMapping : Type 0 where
  pub source : SourceGrant
  pub expected : InventoryRoute

abbrev cell : Option Text → Value
cell none = arr (cons (int false 0) nil)
cell (some s) = arr (cons (int false 1) (cons (str s) nil))

-- `JSON.stringify` of the four cells, up to how a control character is escaped: the keys are only
-- compared with each other
unfoldable pub grant_key : SourceGrant → Text
grant_key g =
    print
      (arr (
        cons (cell g.provider)
          (cons (cell g.model) (cons (cell g.group) (cons (cell g.upstream_prefix) nil)))))
      []

-- a field of a grant, if it is there
unfoldable pub optional_string : Option Value → Text → Imported (Option Text)
optional_string none label = ok none
optional_string (some v) label = string (some v) label true >>= λ s. ok (some s)

abbrev grant_fields : List Text
grant_fields = units "provider" ∷ units "model" ∷ units "group" ∷ units "upstream_prefix" ∷ []

unfoldable pub grant : Option Value → Text → Imported SourceGrant
grant value label = do
  record' ← partial_object value grant_fields label
  provider ← optional_string (get (units "provider") record') label
  model ← optional_string (get (units "model") record') label
  group ← optional_string (get (units "group") record') label
  prefix ← optional_string (get (units "upstream_prefix") record') label
  ok (record { provider = provider; model = model; group = group; upstream_prefix = prefix })

unfoldable pub grants_of : List Value → Text → Imported (List SourceGrant)
grants_of [] label = ok []
grants_of (v ∷ vs) label = grant (some v) label >>= λ g. grants_of vs label >>= λ gs. ok (g ∷ gs)

unfoldable pub protocol_of : Option Value → Text → Imported Protocol
protocol_of (some (str s)) label =
    if text_eq s (units "openai")
    then ok openai
    else if text_eq s (units "anthropic")
    then ok anthropic
    else if text_eq s (units "generation")
    then ok generation
    else err (invalid_schema label)
protocol_of _ label = err (invalid_schema label)

-- insertion by the host's `localeCompare`, which `before` is
unfoldable pub insert_source :
    (Text → Text → Bool) → CandidateSource → List CandidateSource → List CandidateSource
insert_source before s [] = s ∷ []
insert_source before s (t ∷ ts) =
    let later = t ∷ insert_source before s ts in
    if before t.upstream_account_id s.upstream_account_id then later else s ∷ t ∷ ts

unfoldable pub sort_sources : (Text → Text → Bool) → List CandidateSource → List CandidateSource
sort_sources before [] = []
sort_sources before (s ∷ ss) = insert_source before s (sort_sources before ss)

abbrev pub account_ids : List CandidateSource → List Text
account_ids sources = map (λ (s : CandidateSource). s.upstream_account_id) sources

abbrev pub stable_ids : List CandidateSource → List Text
stable_ids sources = map (λ (s : CandidateSource). s.source_stable_id) sources

abbrev pub flag : Option Value → Text → Imported Bool
flag (some (bool b)) label = ok b
flag _ label = err (invalid_schema label)

abbrev pub is_true : Option Value → Bool
is_true (some (bool b)) = b
is_true _ = false

abbrev pub is_object : Option Value → Bool
is_object (some (obj _)) = true
is_object _ = false

module _ (lower : Text → Text) (whole : Bool → Text → Option ℕ) (before : Text → Text → Bool) where
  unfoldable pub source_of : Value → Text → Imported CandidateSource
  source_of value label = do
    record' ←
        object (some value) (units "upstream_account_id" ∷ units "source_stable_id" ∷ []) label
    account ← uuid lower whole (get (units "upstream_account_id") record') label
    stable ← string (get (units "source_stable_id") record') label false
    ok (record { upstream_account_id = account; source_stable_id = stable })

  unfoldable pub sources_of : List Value → Text → Imported (List CandidateSource)
  sources_of [] label = ok []
  sources_of (v ∷ vs) label = source_of v label >>= λ s. sources_of vs label >>= λ ss. ok (s ∷ ss)

  unfoldable pub candidate_sources : Option Value → Text → Imported (List CandidateSource)
  candidate_sources values label = do
    vs ← list values 1000 label
    sources ← sources_of vs label
    throw_if
        (not (once lower whole (account_ids (sort_sources before sources)))
          || not (once lower whole (stable_ids (sort_sources before sources))))
        (failure (label ++ units " contains duplicate source bindings"))
    ok (sort_sources before sources)

  -- the candidates and their sources, which have to be those of the same accounts
  unfoldable pub bound_candidates :
      Option Value → Option Value → Text → Text → Imported (List Text × List CandidateSource)
  bound_candidates ids sources label document = do
    candidates ← unique_sorted lower whole ids label
    bindings ← candidate_sources sources label
    throw_if (not (same candidates (account_ids bindings)))
        (failure (document ++ units " has an incomplete candidate source binding"))
    ok (candidates, bindings)

  -- one policy, its hash read and not seen before
  unfoldable pub policy_of : Fields → Text → Imported NativePolicy
  policy_of record' key_hash = do
    enabled ← flag (get (units "enabled") record') (units "source policy")
    vs ← list (get (units "grants") record') 500 (units "source policy")
    grants ← grants_of vs (units "source grant")
    throw_if (not (once lower whole (map grant_key grants)))
        (failure (units "source policy contains a duplicate grant"))
    ok (record { key_hash = key_hash; enabled = enabled; grants = grants })

  -- the loop over the policies from an index on, with the hashes seen
  unfoldable pub policies_from : ℕ → List Text → List Value → Imported (List NativePolicy)
  policies_from index seen [] = ok []
  policies_from index seen (value ∷ rest) = do
    record' ←
        object (some value) (units "key_hash" ∷ units "enabled" ∷ units "grants" ∷ [])
          (units "source policy item " ++ digits_of (suc index) index)
    key_hash ←
        source_policy_key_hash lower whole (get (units "key_hash") record')
          (units "source policy hash")
    throw_if (contains key_hash seen) (failure (units "source policy contains a duplicate hash"))
    policy ← policy_of record' key_hash
    policies ← policies_from (suc index) (key_hash ∷ seen) rest
    ok (policy ∷ policies)

  unfoldable pub parse_native_policy : Option Value → Imported (List NativePolicy)
  parse_native_policy document = do
    root ←
        object document (units "version" ∷ units "policies" ∷ units "usage" ∷ [])
          (units "source policy")
    throw_if (not (is_one lower whole (get (units "version") root)))
        (failure (units "source policy version is unsupported"))
    throw_if (not (is_object (get (units "usage") root))) (invalid_schema (units "source policy"))
    vs ← list (get (units "policies") root) 100_000 (units "source policy")
    throw_if (length vs == 0) (invalid_schema (units "source policy"))
    policies_from 0 [] vs

  -- what the inventory says of a route, and what a mapping expects of one, by the names of the fields
  unfoldable pub route_of :
      (Text → Text)
      → Fields
      → Text
      → List Text × List CandidateSource
      → Text
      → Imported InventoryRoute
  route_of name record' route_id candidates label = do
    public_model ← string (get (name (units "public_model")) record') label false
    upstream_model ← string (get (name (units "upstream_model")) record') label false
    protocol ← protocol_of (get (name (units "protocol")) record') label
    updated_at ← integer lower whole (get (name (units "updated_at")) record') label
    accounts ← unique_sorted lower whole (get (name (units "upstream_account_ids")) record') label
    ok (record {
      route_id = route_id;
      public_model = public_model;
      upstream_model = upstream_model;
      protocol = protocol;
      updated_at = updated_at;
      upstream_account_ids = accounts;
      candidate_ids = candidates.0;
      candidate_sources = candidates.1;
    })
