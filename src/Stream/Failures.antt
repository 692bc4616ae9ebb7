-- ===== src/Stream/Failures.antt =====
-- `safeFailure`, `safeFailureDetails`, `trackSocket` and `timeoutError` of ops/lib/cpa-stream.ts.
use memeloop_token_center_mi.Common.{
  ℕ, zero, suc, Bool, false, not, ◌&&◌, ◌||◌, Option, none, some, List, [], ◌∷◌, Text, units,
  contains, leb, ◌==◌, all, length, if◌then◌else◌,
}
use memeloop_token_center_mi.Stream.Profiles.{Role, reader, receiver}

pub data TimerSource : Type 0 where
  socket_idle reader_total receiver_total : TimerSource

-- `FailureContext`
pub record FailureContext : Type 0 where
  pub role : Option Role
  pub transfer_phase : Option Text
  pub bytes : Option ℕ
  pub timeout_source : Option TimerSource
  pub timeout_ms : Option ℕ

-- `SocketContext`
pub record SocketContext : Type 0 where
  pub role : Role
  pub transfer_phase : Text
  pub bytes : ℕ
  pub idle_ms : ℕ

-- An error, with what `failureContexts` has for it; its causes stand behind it in a list.
pub record NativeError : Type 0 where
  pub code : Option Text
  pub message : Text
  pub syscall : Option Text
  pub context : Option FailureContext

-- what `safeFailureDetails` returns
pub record FailureDetails : Type 0 where
  pub cause_code : Option Text
  pub syscall : Option Text
  pub timeout_source : Option TimerSource
  pub timeout_ms : Option ℕ
  pub transfer_phase : Option Text
  pub confirmed_bytes : Option ℕ
  pub received_bytes : Option ℕ

abbrev pub native_failure_codes : List Text
native_failure_codes =
    units "EACCES"
    ∷ units "EPERM"
    ∷ units "ENOENT"
    ∷ units "EEXIST"
    ∷ units "EIO"
    ∷ units "ENOSPC"
    ∷ units "EROFS"
    ∷ units "EMFILE"
    ∷ units "ENFILE"
    ∷ units "ELOOP"
    ∷ units "ECONNREFUSED"
    ∷ units "ECONNRESET"
    ∷ units "ECONNABORTED"
    ∷ units "ETIMEDOUT"
    ∷ units "EHOSTUNREACH"
    ∷ units "ENETUNREACH"
    ∷ units "EPIPE"
    ∷ units "EADDRINUSE"
    ∷ units "ENOBUFS"
    ∷ units "ERR_STREAM_DESTROYED"
    ∷ units "ERR_STREAM_WRITE_AFTER_END"
    ∷ units "CERT_HAS_EXPIRED"
    ∷ units "CERT_NOT_YET_VALID"
    ∷ units "DEPTH_ZERO_SELF_SIGNED_CERT"
    ∷ units "SELF_SIGNED_CERT_IN_CHAIN"
    ∷ units "UNABLE_TO_VERIFY_LEAF_SIGNATURE"
    ∷ units "ERR_TLS_CERT_ALTNAME_INVALID"
    ∷ units "ERR_TLS_HANDSHAKE_TIMEOUT"
    ∷ units "ERR_TLS_CERT_SIGNATURE_ALGORITHM_UNSUPPORTED"
    ∷ units "ERR_SSL_TLSV1_ALERT_UNKNOWN_CA"
    ∷ units "ERR_SSL_SSLV3_ALERT_BAD_CERTIFICATE"
    ∷ units "ERR_SSL_TLSV13_ALERT_CERTIFICATE_REQUIRED"
    ∷ units "ERR_SSL_TLSV1_ALERT_INTERNAL_ERROR"
    ∷ units "ERR_SSL_UNEXPECTED_EOF_WHILE_READING"
    ∷ []

abbrev pub is_native : Option Text → Bool
is_native none = false
is_native (some code) = contains code native_failure_codes

abbrev is_upper : ℕ → Bool
is_upper c = leb b'A' c && leb c b'Z'

-- /^[A-Z][A-Z_]{1,60}$/
unfoldable pub is_error_code : Text → Bool
is_error_code [] = false
is_error_code (c ∷ s) =
    is_upper c && all (λ d. is_upper d || d == b'_') s && leb 1 (length s) && leb (length s) 60

abbrev pub or_failed : Text → Text
or_failed code =
    if contains code native_failure_codes || is_error_code code then code else units "COPY_FAILED"

abbrev pub safe_code : NativeError → Option Text → Text
safe_code error none = or_failed error.message
safe_code error (some code) =
    if contains code native_failure_codes then code else or_failed error.message

-- What is thrown may be no error.
unfoldable pub safe_failure : Option NativeError → Text
safe_failure none = or_failed []
safe_failure (some error) = safe_code error error.code

abbrev pub later : {A : Type 0} → Option A → Option A → Option A
later none before = before
later (some a) before = some a

abbrev pub if_native : Option Text → Option Text
if_native code = if is_native code then code else none

abbrev is_given : Text → Bool
is_given t = not (length t == 0)

abbrev if_given : Option Text → Option Text
if_given none = none
if_given (some t) = if is_given t then some t else none

abbrev if_known : Option Text → Option Text
if_known none = none
if_known (some t) =
    if contains t (units "write" ∷ units "read" ∷ units "connect" ∷ units "shutdown" ∷ [])
    then some t
    else none

abbrev bytes_of_reader : Option Role → Option ℕ → Option ℕ
bytes_of_reader (some reader) bytes = bytes
bytes_of_reader _ bytes = none

abbrev bytes_of_receiver : Option Role → Option ℕ → Option ℕ
bytes_of_receiver (some receiver) bytes = bytes
bytes_of_receiver _ bytes = none

unfoldable pub add_context : Option FailureContext → FailureDetails → FailureDetails
add_context none details = details
add_context (some context) details = record details {
  timeout_source = later context.timeout_source details.timeout_source;
  timeout_ms = later context.timeout_ms details.timeout_ms;
  transfer_phase = later (if_given context.transfer_phase) details.transfer_phase;
  confirmed_bytes = later (bytes_of_reader context.role context.bytes) details.confirmed_bytes;
  received_bytes = later (bytes_of_receiver context.role context.bytes) details.received_bytes;
}

abbrev pub add_error : NativeError → FailureDetails → FailureDetails
add_error error details = add_context error.context (record details {
  cause_code = later (if_native error.code) details.cause_code;
  syscall = later (if_known error.syscall) details.syscall;
})

-- the loop over an error and its causes, for so many of them
unfoldable pub details_from : ℕ → List NativeError → FailureDetails → FailureDetails
details_from zero errors details = details
details_from (suc depth) [] details = details
details_from (suc depth) (error ∷ causes) details =
    details_from depth causes (add_error error details)

unfoldable pub safe_failure_details : List NativeError → FailureDetails
safe_failure_details errors = details_from 4 errors (record {
  cause_code = none;
  syscall = none;
  timeout_source = none;
  timeout_ms = none;
  transfer_phase = none;
  confirmed_bytes = none;
  received_bytes = none;
})

-- the context that a socket has after `trackSocket`
unfoldable pub track_socket : Text → Option ℕ → Option SocketContext → Option SocketContext
track_socket phase bytes none = none
track_socket phase none (some context) = some (record context { transfer_phase = phase })
track_socket phase (some n) (some context) =
    some (record context { transfer_phase = phase; bytes = n })

abbrev context_of : Option SocketContext → TimerSource → ℕ → FailureContext
context_of none source ms = record {
  role = none;
  transfer_phase = none;
  bytes = none;
  timeout_source = some source;
  timeout_ms = some ms;
}
context_of (some c) source ms = record {
  role = some c.role;
  transfer_phase = some c.transfer_phase;
  bytes = some c.bytes;
  timeout_source = some source;
  timeout_ms = some ms;
}

unfoldable pub timeout_error : Option SocketContext → Text → TimerSource → ℕ → NativeError
timeout_error socket code source ms = record {
  code = none;
  message = code;
  syscall = none;
  context = some (context_of socket source ms);
}
