-- ===== src/Probe/Budget.antt =====
-- ops/inspection/cpa-work-probe-budget.ts: what one observation of the cluster says of the attempt, and the
-- deadline of a cleanup.
-- Times are whole milliseconds since the epoch; times before it, and fractions, are not modelled. `Date.parse` belongs to the host and is the parameter
-- `parse_date`; `none` stands for NaN.
use memeloop_token_center_mi.Common.{
  ℕ, ◌+◌, ◌-◌, min, String, Bool, true, false, not, ◌&&◌, ◌||◌, Option, none, some, ltb, leb,
  str_eq, if◌then◌else◌, Result, ok, err, throw_if, ◌>>=◌, ◌>>◌,
}
use memeloop_token_center_mi.Probe.Observation.{
  ProbeBudgets, probe_budget_ms, ProbeError, invalid_timestamp, identity_mismatch,
  resource_identity_missing, target_mismatch, stale_observation, invalid_container_state,
  invalid_exec_start, missing_exec_start, missing_write_start, invalid_exit_code, invalid_exec_end,
  invalid_cleanup_boundary, Terminated, ProbeObservation, ProbeIdentity, validate_budgets, is_empty,
  is_missing, option_eq, is_some, or_else, holds_of, container_ok, container_started, container_end,
  exit_negative, exit_nonzero,
}

pub data Status : Type 0 where
  total_deadline startup_failed exec_failed startup_deadline exec_deadline : Status
  complete starting executing : Status

pub data TerminalCause : Type 0 where
  startup_failed exec_failed : TerminalCause

abbrev pub status_of_cause : TerminalCause → Status
status_of_cause TerminalCause.startup_failed = Status.startup_failed
status_of_cause TerminalCause.exec_failed = Status.exec_failed

-- The parsed times of an observation that passed every check.
pub record Times : Type 0 where
  pub start : ℕ
  pub observed : ℕ
  pub exec_start : Option ℕ
  pub finished : Option ℕ

abbrev pub times_of : ℕ → ℕ → Option ℕ → Option ℕ → Times
times_of start observed exec_start finished = record {
  start = start;
  observed = observed;
  exec_start = exec_start;
  finished = finished;
}

abbrev pub phase_is : ProbeObservation → String → Bool
phase_is o phase = option_eq o.pod_phase (some phase)

-- `terminalCause`
unfoldable pub terminal_cause : ProbeObservation → Times → Option TerminalCause
unfolding container_end
terminal_cause o t =
    let end = container_end o.state in
    let unstarted = not (is_some t.exec_start) in
    if o.init_failed
      || (phase_is o "Failed" && unstarted)
      || (o.job_failed && unstarted)
      || (is_some end && unstarted)
    then some TerminalCause.startup_failed
    else if exit_nonzero end || o.job_failed || phase_is o "Failed"
    then some TerminalCause.exec_failed
    else none

abbrev pub exec_limit : ProbeBudgets → Times → Option ℕ
exec_limit b t = elim t.exec_start [ none ↦ none | some s ↦ some (s + b.exec_ms) ]

-- the status of an attempt that no deadline and no failure has ended
unfoldable pub open_status : ProbeObservation → Times → Status
unfolding container_end
open_status o t =
    if is_some (container_end o.state)
    then (if not (exit_nonzero (container_end o.state)) && o.complete && phase_is o "Succeeded"
        then Status.complete
        else Status.exec_failed)
    else if is_some t.exec_start
    then executing
    else starting

-- the `if` chain that ends `probeBudget`
unfoldable pub decide_status :
    ProbeObservation → Times → ℕ → ProbeBudgets → Option TerminalCause → Status
decide_status o t now b (some cause) =
    if leb (t.start + b.total_ms) now then total_deadline else status_of_cause cause
decide_status o t now b none =
    if leb (t.start + b.total_ms) now
    then total_deadline
    else if leb (t.start + b.startup_ms) (or_else t.exec_start now)
    then startup_deadline
    else if holds_of (exec_limit b t) (λ limit. leb limit (or_else t.finished now))
    then exec_deadline
    else open_status o t

pub record ProbeDecision : Type 0 where
  pub status : Status
  pub cause : Option TerminalCause
  pub startup_limit : ℕ
  pub exec_limit : Option ℕ
  pub total_limit : ℕ
  pub exec_elapsed : Option ℕ
  pub bytes : Option ℕ
  pub stop_required : Bool
  pub cleanup_identity : ProbeIdentity

abbrev pub stop_of : Status → Bool
stop_of starting = false
stop_of executing = false
stop_of _ = true

abbrev pub bytes_of : Status → Option ℕ
bytes_of Status.complete = some 268_435_456
bytes_of _ = none

-- the result object; `finished ?? now` is not below the start of the execution once validated
unfoldable pub decision :
    ProbeObservation → Times → ProbeIdentity → ℕ → ProbeBudgets → ProbeDecision
unfolding terminal_cause decide_status open_status
decision o t identity now b =
    let cause = terminal_cause o t in
    let status = decide_status o t now b cause in
    record {
      status = status;
      cause = cause;
      startup_limit = t.start + b.startup_ms;
      exec_limit = exec_limit b t;
      total_limit = t.start + b.total_ms;
      exec_elapsed = elim t.exec_start [ none ↦ none | some s ↦ some (or_else t.finished now - s) ];
      bytes = bytes_of status;
      stop_required = stop_of status;
      cleanup_identity = identity;
    }

abbrev pub target_claim : String
target_claim = "mtc-cpa-recovery-work-versetensor-20261011"

-- the identity, resource and target checks
unfoldable pub check_identity : ProbeObservation → ProbeIdentity → Result ProbeError (Unit {0})
check_identity o identity = do
  throw_if
      (not (str_eq o.job_uid identity.job_uid)
        || is_empty identity.job_uid
        || not (str_eq o.pvc_uid identity.pvc_uid)
        || is_empty identity.pvc_uid
        || not (option_eq o.pod_uid identity.pod_uid))
      identity_mismatch
  throw_if
      (is_empty o.job_resource_version
        || is_empty o.pvc_resource_version
        || (is_some o.pod_uid
            && (is_missing o.pod_resource_version
                || not (option_eq o.owner_uid (some identity.job_uid)))))
      resource_identity_missing
  throw_if (not (str_eq o.claim_name target_claim)) target_mismatch

-- the checks on the times of the execution
unfoldable pub check_exec : ProbeObservation → Times → Result ProbeError (Unit {0})
unfolding container_end
check_exec o t = do
  throw_if (holds_of t.exec_start (λ s. ltb s t.start || ltb t.observed s)) invalid_exec_start
  throw_if ((o.write_started || o.complete) && not (is_some t.exec_start)) missing_exec_start
  throw_if (o.complete && not o.write_started) missing_write_start
  throw_if (exit_negative (container_end o.state)) invalid_exit_code

unfoldable pub check_end : Times → Result ProbeError (Unit {0})
check_end t =
    throw_if
      (holds_of t.finished
        (λ f. ltb f t.start || ltb t.observed f || holds_of t.exec_start (λ s. ltb f s)))
      invalid_exec_end

-- the order of the three times, and their age
abbrev pub is_stale : ℕ → ℕ → ℕ → ℕ → ProbeBudgets → Bool
is_stale start collection observed now b =
    ltb now start
    || ltb collection start
    || ltb observed collection
    || ltb now observed
    || ltb b.freshness_ms (now - collection)

module _ (parse_date : String → Option ℕ) where
  unfoldable pub timestamp : String → Result ProbeError ℕ
  timestamp value = elim (parse_date value) [ none ↦ err invalid_timestamp | some t ↦ ok t ]

  -- `startedAt ? timestamp(startedAt) : null`
  unfoldable pub optional_timestamp : Option String → Result ProbeError (Option ℕ)
  unfolding timestamp
  optional_timestamp none = ok none
  optional_timestamp (some at) = if is_empty at then ok none else timestamp at >>= λ t. ok (some t)

  -- `end ? timestamp(end.finishedAt) : null`
  unfoldable pub end_timestamp : Option Terminated → Result ProbeError (Option ℕ)
  unfolding timestamp
  end_timestamp none = ok none
  end_timestamp (some end) = timestamp end.finished_at >>= λ t. ok (some t)

  unfoldable pub probe_budget :
      ProbeObservation → ProbeIdentity → ℕ → ProbeBudgets → Result ProbeError ProbeDecision
  unfolding validate_budgets check_identity timestamp optional_timestamp check_exec end_timestamp
      check_end container_ok container_started container_end
  probe_budget o identity now b = do
    validate_budgets b
    check_identity o identity
    start ← timestamp o.attempt_started_at
    collection ← timestamp o.collection_started_at
    observed ← timestamp o.observed_at
    throw_if (is_stale start collection observed now b) stale_observation
    throw_if (not (container_ok o.state)) invalid_container_state
    exec_start ← optional_timestamp (container_started o.state)
    check_exec o (times_of start observed exec_start none)
    finished ← end_timestamp (container_end o.state)
    check_end (times_of start observed exec_start finished)
    ok (decision o (times_of start observed exec_start finished) identity now b)

  -- `anchor = operatorCleanupStartedAt ?? operatorFinishedAt ?? entry`
  unfoldable pub cleanup_anchor : ℕ → Option String → Option ℕ → Result ProbeError ℕ
  unfolding timestamp
  cleanup_anchor entry (some at) finished = timestamp at
  cleanup_anchor entry none finished = ok (or_else finished entry)

  -- `outer` is `none` for the default, Infinity
  unfoldable pub cleanup_deadline : ℕ → Option String → Option ℕ → Option ℕ → Result ProbeError ℕ
  unfolding cleanup_anchor
  cleanup_deadline entry started finished outer = do
    anchor ← cleanup_anchor entry started finished
    throw_if (ltb entry anchor) invalid_cleanup_boundary
    ok (
        min (anchor + probe_budget_ms.cleanup_ms)
          (or_else outer (anchor + probe_budget_ms.cleanup_ms)))
