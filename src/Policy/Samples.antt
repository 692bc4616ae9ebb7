-- ===== src/Policy/Samples.antt =====
-- The documents and the target of the runs: one key, one route, one account.
use memeloop_token_center_mi.Common.{
  ℕ, Bool, true, false, Option, none, String, List, [], ◌∷◌, ◌++◌, Text, units,
}
use memeloop_token_center_mi.Json.Parser.{
  Value, bool, int, str, arr, obj, nil, cons, Fields, field, end,
}
use memeloop_token_center_mi.Json.Print.{print}
use memeloop_token_center_mi.Policy.Plan.{Identity}

abbrev pub key : Text
key = units "11111111-1111-4111-8111-111111111111"

abbrev pub route : Text
route = units "22222222-2222-4222-8222-222222222222"

abbrev pub account : Text
account = units "33333333-3333-4333-8333-333333333333"

abbrev pub hash : Text
hash = units "00112233445566778899aabbccddeeff00112233445566778899aabbccddeeff"

abbrev pub no_reals : Bool → Text → Option ℕ
no_reals negative s = none

abbrev pub all_finite : Bool → Text → Bool
all_finite negative s = true

abbrev pub earlier : Text → Text → Bool
earlier s t = false

abbrev pub one_digest : List ℕ → Text
one_digest raw = hash

abbrev one : Value → Value
one v = arr (cons v nil)

abbrev pub with : String → Value → Fields → Fields
with name v rest = field (units name) v rest

abbrev binding : Value
binding =
    obj
      (with "upstream_account_id" (str account) (with "source_stable_id" (str (units "src-1")) end))

abbrev grant_value : Value
grant_value = obj (with "provider" (str (units "codex")) (with "model" (str (units "gpt-5")) end))

abbrev pub policy_document : Value
policy_document = obj (
    with "version" (int false 1) (
      with "policies"
        (one (
          obj (
            with "key_hash" (str (units "sha256:" ++ hash))
              (with "enabled" (bool true) (with "grants" (one grant_value) end)))))
        (with "usage" (obj end) end)))

abbrev pub inventory_document : Value
inventory_document = obj (
    with "version" (int false 1) (
      with "routes"
        (one (
          obj (
            with "route_id" (str route) (
              with "public_model" (str (units "gpt")) (
                with "upstream_model" (str (units "gpt-5")) (
                  with "protocol" (str (units "openai")) (
                    with "enabled" (bool true) (
                      with "updated_at" (int false 7) (
                        with "upstream_account_ids" (one (str account)) (
                          with "candidate_upstream_account_ids" (one (str account))
                            (with "candidate_sources" (one binding) end)))))))))))
        end))

abbrev pub mapping_document : Value
mapping_document = obj (
    with "version" (int false 1) (
      with "tenant_external_id" (str (units "team-1")) (
        with "source_snapshot_sha256" (str hash) (
          with "route_inventory_sha256" (str hash) (
            with "mappings"
              (one (
                obj (
                  with "source" grant_value (
                    with "target"
                      (obj (
                        with "route_id" (str route) (
                          with "expected_public_model" (str (units "gpt")) (
                            with "expected_upstream_model" (str (units "gpt-5")) (
                              with "expected_protocol" (str (units "openai")) (
                                with "expected_updated_at" (int false 7) (
                                  with "expected_upstream_account_ids" (one (str account)) (
                                    with "expected_candidate_upstream_account_ids"
                                      (one (str account))
                                      (with "expected_candidate_sources" (one binding) end)))))))))
                      end))))
              end)))))

abbrev pub bytes_of : Value → List ℕ
bytes_of v = print v []

abbrev pub identities : List Identity
identities = record { source_hash = hash; key_id = key } ∷ []
