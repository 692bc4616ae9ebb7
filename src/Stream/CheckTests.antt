-- ===== src/Stream/CheckTests.antt =====
-- Runs of the profiles, the failures and the checks of an identity.
use memeloop_token_center_mi.Common.{
  ◌≡◌, refl, true, false, none, some, [], ◌∷◌, Text, units, ok, err,
}
use memeloop_token_center_mi.Json.Parser.{behind}
use memeloop_token_center_mi.Routes.Strings.{starts_with, trim, sort_by, split}
use memeloop_token_center_mi.Stream.Wire.{Bytes, thrown}
use memeloop_token_center_mi.Stream.Profiles.{
  original, same_node, versetensor, reader, receiver, selected, is_host, stream_resource_name,
  require_placement, validate_endpoint, profile_command_from, profile_command, identity_name,
}
use memeloop_token_center_mi.Stream.Failures.{
  NativeError, socket_idle, is_error_code, safe_failure, add_context, details_from,
  safe_failure_details, track_socket, timeout_error,
}
use memeloop_token_center_mi.Stream.Identity.{
  Identity, Peer, is_fingerprint, validate_identity, authorize,
}
use memeloop_token_center_mi.Stream.Sender.{require_read_only_mount}

checks : Unit {0}
unfolding behind starts_with trim sort_by split selected is_host stream_resource_name
    require_placement validate_endpoint profile_command_from profile_command identity_name
    is_error_code safe_failure add_context details_from safe_failure_details track_socket
    timeout_error is_fingerprint validate_identity authorize require_read_only_mount
checks = tt

abbrev no_digest : Bytes → Text
no_digest bs = []

profiles :
    (profile_command (units "same-node-verify") ≡ (same_node, units "verify"))
    × (profile_command (units "verify") ≡ (original, units "verify"))
    × (stream_resource_name no_digest (units "reader") versetensor
        ≡ units "mtc-cpa-stream-versetensor-reader-20261011b")
    × (require_placement no_digest receiver same_node
          (some (units "sansheng-hv"))
          (some (units "mtc-cpa-stream-local-receiver-20261006a-x7"))
        ≡ ok tt)
    × (require_placement no_digest receiver original (some (units "sansheng-hv")) none
        ≡ err (thrown "NODE_PLACEMENT"))
    × (validate_endpoint no_digest (units "10.42.3.254") original ≡ ok (units "10.42.3.254"))
    × (validate_endpoint no_digest (units "10.42.3.255") original
        ≡ err (thrown "RECEIVER_NOT_WESTLAKE_POD"))
    × (validate_endpoint no_digest (units "10.42.2.1") same_node
        ≡ err (thrown "RECEIVER_NOT_SANSHENG_POD"))
    × (identity_name reader "r" ≡ units "reader.r.internal")
unfolding checks
profiles = (refl, refl, refl, refl, refl, refl, refl, refl, refl)

abbrev idle : NativeError
idle =
    timeout_error
      (track_socket (units "frame-read") (some 8)
        (some (record { role = receiver; transfer_phase = []; bytes = 0; idle_ms = 5 })))
      (units "IDLE_DEADLINE") socket_idle 5

abbrev write_failure : NativeError
write_failure = record {
  code = some (units "EPIPE");
  message = units "write EPIPE";
  syscall = some (units "write");
  context = none;
}

failures :
    (safe_failure (some idle) ≡ units "IDLE_DEADLINE")
    × (safe_failure (some write_failure) ≡ units "EPIPE")
    × (safe_failure none ≡ units "COPY_FAILED")
    × (safe_failure_details (idle ∷ write_failure ∷ []) ≡ record {
      cause_code = some (units "EPIPE");
      syscall = some (units "write");
      timeout_source = some socket_idle;
      timeout_ms = some 5;
      transfer_phase = some (units "frame-read");
      confirmed_bytes = none;
      received_bytes = some 8;
    })
unfolding checks
failures = (refl, refl, refl, refl)

abbrev pin : Text
pin =
    units
      "00:01:02:03:04:05:06:07:08:09:0A:0B:0C:0D:0E:0F:10:11:12:13:14:15:16:17:18:19:1A:1B:1C:1D:1E:1F"

abbrev identity : Identity
identity = record {
  fields = units "key" ∷ units "cert" ∷ units "ca" ∷ units "peerFingerprint" ∷ [];
  peer_fingerprint = some pin;
  certificate = record {
    started = some 100;
    ended = some 2_700_100;
    is_authority = false;
    is_signed = true;
    has_name = true;
    has_key = true;
  };
  authority_is_authority = true;
}

abbrev peer : Peer
peer = record {
  authorized = true;
  fingerprint = pin;
  has_name = true;
  started = some 100;
  ended = some 2_700_101;
}

identities :
    (validate_identity 2_700_099 identity ≡ ok tt)
    × (validate_identity 2_700_100 identity ≡ err (thrown "IDENTITY_LIFETIME"))
    × (authorize 200 peer identity ≡ err (thrown "PEER_LIFETIME"))
    × (authorize 200 (record peer { fingerprint = [] }) identity ≡ err (thrown "PEER_PIN"))
unfolding checks
identities = (refl, refl, refl, refl)

mounts :
    (require_read_only_mount (units "1 2 3 4 /source ro,relatime 5 \n") ≡ ok tt)
    × (require_read_only_mount (units "1 2 3 4 /source rw,relatime 5")
        ≡ err (thrown "SOURCE_NOT_READ_ONLY"))
unfolding checks
mounts = (refl, refl)
