-- ===== src/Stream/Observation.antt =====
-- ops/lib/cpa-stream-observation.ts: which pod of a job is ready, and how many bytes of a segmented
-- transfer its events confirm.
use memeloop_token_center_mi.Common.{
  ℕ, ◌*◌, Bool, true, false, not, ◌&&◌, ◌||◌, Option, none, some, List, [], ◌∷◌, ◌++◌, Text, units,
  text_eq, any, all, length, leb, ltb, ◌==◌, if◌then◌else◌, ok, err, throw_if, ◌>>=◌, ◌>>◌,
}
use memeloop_token_center_mi.Stream.Wire.{Bytes, thrown, Copied, is_empty}
use memeloop_token_center_mi.Stream.Profiles.{
  Role, reader, receiver, segmented, role_text, expected_node, is_text, is_endpoint,
  validate_endpoint,
}

-- the state of a container: whether it has `running`, and the exit code of `terminated`, if any
pub record Container : Type 0 where
  pub name : Text
  pub running : Bool
  pub exit_code : Option ℕ

-- `ObservedPod`; an absent list of statuses is the empty one, as the code reads it, and an absent
-- list of owners has none
pub record ObservedPod : Type 0 where
  pub uid : Text
  pub owners : List Text
  pub node_name : Option Text
  pub phase : Option Text
  pub pod_ip : Option Text
  pub init : List Container
  pub containers : List Container

pub data PodState : Type 0 where
  wait : PodState
  ready : (uid ip : Text) → PodState

-- no exit code, or zero
abbrev pub is_clean_exit : Option ℕ → Bool
is_clean_exit none = true
is_clean_exit (some code) = code == 0

abbrev pub is_done : Option ℕ → Bool
is_done none = false
is_done (some code) = code == 0

-- the address, where there is one that is not empty
abbrev pub given_ip : Option Text → Option Text
given_ip none = none
given_ip (some []) = none
given_ip (some (c ∷ ip)) = some (c ∷ ip)

module _ (sha256_hex : Bytes → Text) where
  -- whether all of the pod is up
  abbrev pub is_running : Role → ObservedPod → Bool
  is_running role pod =
      is_text (units "Running") pod.phase
      && not (is_empty pod.init)
      && all (λ c. is_done c.exit_code) pod.init
      && any (λ c. text_eq c.name (role_text role) && c.running) pod.containers

  -- where the pod may be reached
  unfoldable pub check_ip : Role → Text → Copied Text
  check_ip receiver ip = validate_endpoint sha256_hex ip segmented
  check_ip reader ip =
      throw_if (not (is_endpoint (units "10.42.2") ip)) (thrown "READER_IP_SCOPE") >> ok ip

  unfoldable pub ready_pod : Role → ObservedPod → Text → Copied PodState
  ready_pod role pod ip = do
    throw_if (not (is_text (expected_node sha256_hex role segmented) pod.node_name))
        (thrown "NODE_PLACEMENT")
    _ ← check_ip role ip
    ok (ready pod.uid ip)

  unfoldable pub pod_state : Text → Role → ObservedPod → Copied PodState
  pod_state job_uid role pod = do
    throw_if (not (any (λ owner. text_eq owner job_uid) pod.owners)) (thrown "POD_OWNER")
    throw_if (is_text (units "Failed") pod.phase || is_text (units "Succeeded") pod.phase)
        (thrown "POD_TERMINAL")
    throw_if (not (all (λ c. is_clean_exit c.exit_code) (pod.init ++ pod.containers)))
        (thrown "POD_TERMINATED")
    elim (given_ip pod.pod_ip) [
      | none ↦ ok wait
      | some ip ↦ if is_running role pod then ready_pod role pod ip else ok wait
    ]

  -- `elapsedMs` is none where it is no finite number of at least zero.
  unfoldable pub select_segmented_pod : List ObservedPod → Text → Role → Option ℕ → Copied PodState
  select_segmented_pod pods job_uid role none = err (thrown "BUSINESS_DEADLINE")
  select_segmented_pod pods job_uid role (some elapsed_ms) = do
    throw_if (not (ltb elapsed_ms 120_000)) (thrown "BUSINESS_DEADLINE")
    throw_if (not (leb (length pods) 1)) (thrown "POD_COUNT")
    elim pods [ [] ↦ ok wait | pod ∷ _ ↦ pod_state job_uid role pod ]

-- What a field of an event holds: nothing, a natural number, or another value.
pub data Field : Type 0 where
  undefined other : Field
  natural : (n : ℕ) → Field

pub record Event : Type 0 where
  pub confirmed_bytes : Field
  pub is_ack_read : Bool
  pub segment : Field

-- the size of the segmented transfer, and of one of its segments
abbrev pub segmented_bytes : ℕ
segmented_bytes = 16_777_216

abbrev pub segment_bytes : ℕ
segment_bytes = 4_194_304

abbrev pub larger : ℕ → ℕ → ℕ
larger m n = if ltb m n then n else m

unfoldable pub confirm_bytes : Field → ℕ → Copied ℕ
confirm_bytes undefined confirmed = ok confirmed
confirm_bytes other confirmed = err (thrown "PROGRESS_RANGE")
confirm_bytes (natural n) confirmed =
    if leb n segmented_bytes then ok (larger confirmed n) else err (thrown "PROGRESS_RANGE")

unfoldable pub confirm_segment : Field → ℕ → Copied ℕ
confirm_segment (natural n) confirmed =
    if leb 1 n && leb n 4
    then ok (larger confirmed (n * segment_bytes))
    else err (thrown "PROGRESS_SEGMENT")
confirm_segment _ confirmed = err (thrown "PROGRESS_SEGMENT")

unfoldable pub confirm_event : Event → ℕ → Copied ℕ
confirm_event event confirmed = confirm_bytes event.confirmed_bytes confirmed >>= λ c.
    if event.is_ack_read then confirm_segment event.segment c else ok c

unfoldable pub confirm_events : List Event → ℕ → Copied ℕ
confirm_events [] confirmed = ok confirmed
confirm_events (event ∷ events) confirmed =
    confirm_event event confirmed >>= λ c. confirm_events events c

unfoldable pub confirmed_segmented_bytes : List Event → ℕ → Copied ℕ
confirmed_segmented_bytes events previous =
    throw_if (not (leb previous segmented_bytes)) (thrown "PROGRESS_RANGE")
    >> confirm_events events previous
