-- ===== src/Routes/Snapshots.antt =====
-- The snapshot document as it is written and read back.
use memeloop_token_center_mi.Common.{
  ℕ, ◌≡◌, refl, sym, Bool, true, false, Option, some, List, [], ◌∷◌, Text, units, ok, All,
}
use memeloop_token_center_mi.Json.Parser.{
  behind, int, str, arr, obj, Value, Items, nil, cons, field, end,
}
use mathlib.Core.Path.{subst}
use memeloop_token_center_mi.Routes.Strings.{insert, less, sort_by}
use memeloop_token_center_mi.Routes.Schema.{
  get, items, object, source_text, is_source_text, relative_auth_path,
}
use memeloop_token_center_mi.Routes.Auths.{Snapshot, SnapshotEntry, snapshot_models}
use memeloop_token_center_mi.Routes.Serve.{is_stable_id}
use memeloop_token_center_mi.Routes.Material.{
  ParsedSnapshot, stable_text, elements_of, registered_texts, entry_of, entries_of, parse_snapshot,
}

abbrev text_items : List Text → Items
text_items [] = nil
text_items (t ∷ ts) = cons (str t) (text_items ts)

-- an entry and a snapshot as documents, in the order of the type's fields
abbrev pub entry_document : SnapshotEntry → Value
entry_document e = obj (
    field (units "auth_id") (str e.auth_id) (
      field (units "provider") (str e.provider)
        (field (units "registered_models") (arr (text_items e.registered_models)) end)))

abbrev pub entry_documents : List SnapshotEntry → Items
entry_documents [] = nil
entry_documents (e ∷ es) = cons (entry_document e) (entry_documents es)

abbrev pub document_of : ParsedSnapshot → Value
document_of s = obj (
    field (units "version") (int false 1) (
      field (units "source_config_sha256") (str s.source_config_sha256) (
        field (units "auth_files_sha256") (str s.auth_files_sha256)
          (field (units "auth_models") (arr (entry_documents s.auth_models)) end))))

-- An entry that can be written: of the managed provider, with a path that is accepted, and names that are
-- source texts.
abbrev pub IsEntry : SnapshotEntry → Type 0
IsEntry e =
    (relative_auth_path (some (str e.auth_id)) ≡ ok e.auth_id)
    × (e.provider ≡ units "codex")
    × All (λ t. is_source_text t ≡ true) e.registered_models

registered_texts-text_items :
    (ts : List Text)
    → All (λ t. is_source_text t ≡ true) ts
    → registered_texts (items (text_items ts)) ≡ ok ts
unfolding registered_texts source_text
registered_texts-text_items [] h = refl
registered_texts-text_items (t ∷ ts) (p, h) = rw (p, registered_texts-text_items ts h) refl

codex_entry :
    (auth_id : Text) (models : List Text)
    → relative_auth_path (some (str auth_id)) ≡ ok auth_id
    → All (λ t. is_source_text t ≡ true) models
    → let e : SnapshotEntry = record {
      auth_id = auth_id;
      provider = units "codex";
      registered_models = models;
    } in
      entry_of (entry_document e) ≡ ok e
unfolding entry_of object get elements_of sort_by insert less behind
codex_entry auth_id models h k = rw (h, registered_texts-text_items models k) refl

entry_of-document : (e : SnapshotEntry) → IsEntry e → entry_of (entry_document e) ≡ ok e
entry_of-document e (h, provider, k) =
    let P = (λ (p : Text).
      let e' : SnapshotEntry = record {
        auth_id = e.auth_id;
        provider = p;
        registered_models = e.registered_models;
      } in
      entry_of (entry_document e') ≡ ok e') in
    subst P (sym provider) (codex_entry e.auth_id e.registered_models h k)

entries_of-documents :
    (es : List SnapshotEntry) → All IsEntry es → entries_of (items (entry_documents es)) ≡ ok es
unfolding entries_of
entries_of-documents [] h = refl
entries_of-documents (e ∷ es) (p, h) = rw (entry_of-document e p, entries_of-documents es h) refl

-- The document written for a snapshot is read back as this snapshot, where its two digests are stable
-- identities, its entries can be written, and the entries are accepted where the routes are inspected.
pub parse_snapshot-document :
    (lower : Text → Text) (whole : Bool → Text → Option ℕ) (s : ParsedSnapshot) (models : Snapshot)
    → is_stable_id s.source_config_sha256 ≡ true
    → is_stable_id s.auth_files_sha256 ≡ true
    → All IsEntry s.auth_models
    → snapshot_models lower s.auth_models ≡ ok models
    → parse_snapshot lower whole (some (document_of s)) ≡ ok s
unfolding parse_snapshot object get elements_of stable_text sort_by insert less behind
parse_snapshot-document lower whole s models config files entries accepted =
    rw (config, files, entries_of-documents s.auth_models entries, accepted) refl
