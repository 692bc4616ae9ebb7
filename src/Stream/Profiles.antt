-- ===== src/Stream/Profiles.antt =====
-- The plans and the profiles of ops/lib/cpa-stream.ts, and what is computed from a profile:
-- `profileCommand`, `streamResourceName`, `requirePlacement`, `validateEndpoint` and `identityName`.
use memeloop_token_center_mi.Common.{
  ℕ, zero, suc, ◌*◌, ◌^◌, Bool, false, not, ◌&&◌, ◌||◌, Option, none, some, List, [], ◌∷◌, ◌++◌,
  Text, units, text_eq, leb, ◌==◌, ok, throw_if, ◌>>◌, String,
}
use memeloop_token_center_mi.Json.Parser.{behind}
use memeloop_token_center_mi.Json.Number.{is_digit}
use memeloop_token_center_mi.Routes.Strings.{starts_with, trim}
use memeloop_token_center_mi.Stream.Wire.{Bytes, thrown, Copied, chunk}

-- `CopyPlan`; the digest is its hexadecimal text
pub record CopyPlan : Type 0 where
  pub run : String
  pub source : Text
  pub destination : Text
  pub size : ℕ
  pub sha256 : Text
  pub port : ℕ
  pub chunk_size : ℕ
  pub rate : ℕ
  pub total_ms : ℕ
  pub idle_ms : ℕ
  pub verify_ms : ℕ
  pub sample_ms : ℕ
  pub reserve_bytes : ℕ
  pub uid : ℕ
  pub gid : ℕ

-- `COPY`
abbrev pub copy_plan : CopyPlan
copy_plan = record {
  run = "cpa-stream-20261005a";
  source = units "/source/archive.sqlite";
  destination = units "/destination/recovery-stream-20261005a";
  size = 30_205_399_040;
  sha256 = units "d42a11cebe062ea6c908ebf2ff6cdbdae410e392a01af5faf577a4eab30e589f";
  port = 18_443;
  chunk_size = chunk;
  rate = 64 * 1024 * 1024;
  total_ms = 1_650_000;
  idle_ms = 30_000;
  verify_ms = 600_000;
  sample_ms = 30_000;
  reserve_bytes = 20 * 1024 ^ 3;
  uid = 10_001;
  gid = 10_001;
}

unfoldable pub repeated : ℕ → ℕ → Bytes
repeated zero byte = []
repeated (suc n) byte = byte ∷ repeated n byte

pub data StreamProfile : Type 0 where
  original diagnostic segmented same_node versetensor : StreamProfile

pub data Role : Type 0 where
  reader receiver : Role

-- an entry of `STREAM_PROFILES`
pub record Selected : Type 0 where
  pub plan : CopyPlan
  pub receiver_node : Text
  pub receiver_subnet : Text
  pub prefix : Text
  pub suffix : Text
  pub target_claim : Text

abbrev pub role_text : Role → Text
role_text reader = units "reader"
role_text receiver = units "receiver"

abbrev pub is_text : Text → Option Text → Bool
is_text expected none = false
is_text expected (some t) = text_eq t expected

abbrev pub begins_with : Text → Option Text → Bool
begins_with prefix none = false
begins_with prefix (some t) = starts_with prefix t

abbrev endpoint_error : StreamProfile → String
endpoint_error same_node = "RECEIVER_NOT_SANSHENG_POD"
endpoint_error _ = "RECEIVER_NOT_WESTLAKE_POD"

-- (?:[2-9]|[1-9][0-9]|1[0-9]{2}|2[0-4][0-9]|25[0-4])
unfoldable pub is_host : Text → Bool
is_host (a ∷ []) = leb b'2' a && leb a b'9'
is_host (a ∷ b ∷ []) = leb b'1' a && leb a b'9' && is_digit b
is_host (a ∷ b ∷ c ∷ []) =
    (a == b'1' && is_digit b && is_digit c)
    || (a == b'2' && leb b'0' b && leb b b'4' && is_digit c)
    || (a == b'2' && b == b'5' && leb b'0' c && leb c b'4')
is_host _ = false

abbrev is_host_behind : Option Text → Bool
is_host_behind none = false
is_host_behind (some rest) = is_host rest

abbrev pub is_endpoint : Text → Text → Bool
is_endpoint subnet address =
    text_eq address (trim address) && is_host_behind (behind (subnet ++ units ".") address)

-- `sha256_hex` is the digest of bytes as a hexadecimal text.
module _ (sha256_hex : Bytes → Text) where
  -- `MEMORY_DIAGNOSTIC`
  unfoldable pub memory_diagnostic : CopyPlan
  memory_diagnostic = record copy_plan {
    run = "cpa-stream-diagnostic-20261006a";
    destination = units "/destination/recovery-diagnostic-20261006a";
    size = 1024 * 1024;
    sha256 = sha256_hex (repeated (1024 * 1024) 71);
    reserve_bytes = 0;
  }

  -- `SEGMENTED_DIAGNOSTIC`, and the digest of its four chunks
  unfoldable pub segmented_diagnostic : CopyPlan
  segmented_diagnostic = record copy_plan {
    run = "cpa-stream-segmented-20261011a";
    destination = units "/destination/recovery-segmented-20261011a";
    size = 4 * chunk;
    sha256 = sha256_hex (repeated (4 * chunk) 71);
    reserve_bytes = 0;
    total_ms = 120_000;
    verify_ms = 20_000;
  }

  -- `STREAM_PROFILES[profile]`, with `SAME_NODE_COPY` and `VERSETENSOR_COPY`
  unfoldable pub selected : StreamProfile → Selected
  selected original = record {
    plan = copy_plan;
    receiver_node = units "westlake";
    receiver_subnet = units "10.42.3";
    prefix = units "mtc-cpa-stream";
    suffix = units "20261005a";
    target_claim = units "mtc-cpa-recovery-work-20261005";
  }
  selected diagnostic = record {
    plan = memory_diagnostic;
    receiver_node = units "westlake";
    receiver_subnet = units "10.42.3";
    prefix = units "mtc-cpa-stream-diagnostic";
    suffix = units "20261006a";
    target_claim = units "mtc-cpa-recovery-work-20261005";
  }
  selected segmented = record {
    plan = segmented_diagnostic;
    receiver_node = units "versetensor-hv";
    receiver_subnet = units "10.42.8";
    prefix = units "mtc-cpa-stream-segmented";
    suffix = units "20261011a";
    target_claim = [];
  }
  selected same_node = record {
    plan = record copy_plan {
      run = "cpa-stream-local-20261006a";
      destination = units "/destination/recovery-stream-local-20261006a";
    };
    receiver_node = units "sansheng-hv";
    receiver_subnet = units "10.42.2";
    prefix = units "mtc-cpa-stream-local";
    suffix = units "20261006a";
    target_claim = units "mtc-cpa-recovery-work-20261005";
  }
  selected versetensor = record {
    plan = record copy_plan {
      run = "cpa-stream-versetensor-20261011b";
      destination = units "/destination/recovery-stream-versetensor-20261011b";
    };
    receiver_node = units "versetensor-hv";
    receiver_subnet = units "10.42.8";
    prefix = units "mtc-cpa-stream-versetensor";
    suffix = units "20261011b";
    target_claim = units "mtc-cpa-recovery-work-versetensor-20261011";
  }

  unfoldable pub stream_resource_name : Text → StreamProfile → Text
  stream_resource_name role profile =
      (selected profile).prefix ++ units "-" ++ role ++ units "-" ++ (selected profile).suffix

  abbrev pub expected_node : Role → StreamProfile → Text
  expected_node reader profile = units "sansheng-hv"
  expected_node receiver profile = (selected profile).receiver_node

  unfoldable pub require_placement :
      Role → StreamProfile → Option Text → Option Text → Copied (Unit {0})
  require_placement role profile node pod = do
    throw_if (not (is_text (expected_node role profile) node)) (thrown "NODE_PLACEMENT")
    throw_if (not (begins_with (stream_resource_name (role_text role) profile ++ units "-") pod))
        (thrown "POD_IDENTITY")

  unfoldable pub validate_endpoint : Text → StreamProfile → Copied Text
  validate_endpoint address profile =
      throw_if (not (is_endpoint (selected profile).receiver_subnet address))
        (thrown (endpoint_error profile))
      >> ok address

unfoldable pub identity_name : Role → String → Text
identity_name role run = role_text role ++ units "." ++ units run ++ units ".internal"

-- the profile that the argument begins with, and the command behind it
unfoldable pub profile_command_from : List (Text × StreamProfile) → Text → StreamProfile × Text
profile_command_from [] argument = (original, argument)
profile_command_from ((name, profile) ∷ rest) argument =
    elim (behind (name ++ units "-") argument) [
      | some command ↦ (profile, command)
      | none ↦ profile_command_from rest argument
    ]

unfoldable pub profile_command : Text → StreamProfile × Text
profile_command = profile_command_from (
    (units "same-node", same_node)
    ∷ (units "diagnostic", diagnostic)
    ∷ (units "versetensor", versetensor)
    ∷ (units "segmented", segmented)
    ∷ [])
