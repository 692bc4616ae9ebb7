-- ===== src/Probe/Observation.antt =====
-- ops/inspection/cpa-work-probe-budget.ts: the reviewed budget, and what one observation of the cluster
-- says of the attempt.
use memeloop_token_center_mi.Common.{
  ℕ, ◌+◌, ◌-◌, ◌^◌, String, Bool, true, false, not, ◌&&◌, Option, none, some, ltb, leb, ◌==◌,
  str_eq, if◌then◌else◌, Result, throw_if, ◌>>◌,
}

pub record ProbeBudgets : Type 0 where
  pub startup_ms : ℕ
  pub exec_ms : ℕ
  pub total_ms : ℕ
  pub cleanup_ms : ℕ
  pub api_ms : ℕ
  pub freshness_ms : ℕ
  pub poll_ms : ℕ

abbrev pub probe_budget_ms : ProbeBudgets
probe_budget_ms = record {
  startup_ms = 300_000;
  exec_ms = 165_000;
  total_ms = 480_000;
  cleanup_ms = 30_000;
  api_ms = 2_000;
  freshness_ms = 10_000;
  poll_ms = 1_000;
}

pub data ProbeError : Type 0 where
  invalid_budget unreviewed_budget overlapping_budgets invalid_timestamp : ProbeError
  identity_mismatch resource_identity_missing target_mismatch stale_observation : ProbeError
  invalid_container_state invalid_exec_start missing_exec_start : ProbeError
  missing_write_start invalid_exit_code invalid_exec_end invalid_cleanup_boundary : ProbeError

-- An exit code as the cluster reports it: a number, possibly negative.
pub data ExitCode : Type 0 where
  code : ℕ → ExitCode
  negative : ℕ → ExitCode

pub record Terminated : Type 0 where
  pub started_at : Option String
  pub finished_at : String
  pub exit_code : ExitCode

-- `running` holds its `startedAt`, and `waiting` its optional reason.
pub record ContainerState : Type 0 where
  pub running : Option String
  pub terminated : Option Terminated
  pub waiting : Option (Option String)

pub record ProbeObservation : Type 0 where
  pub job_uid : String
  pub job_resource_version : String
  pub pod_uid : Option String
  pub pod_resource_version : Option String
  pub owner_uid : Option String
  pub pvc_uid : String
  pub pvc_resource_version : String
  pub claim_name : String
  pub attempt_started_at : String
  pub collection_started_at : String
  pub observed_at : String
  pub init_failed : Bool
  pub job_failed : Bool
  pub pod_phase : Option String
  pub state : Option ContainerState
  pub write_started : Bool
  pub complete : Bool

pub record ProbeIdentity : Type 0 where
  pub job_uid : String
  pub pod_uid : Option String
  pub pvc_uid : String

abbrev safe_integer_max : ℕ
safe_integer_max = 2 ^ 53 - 1

-- `!Number.isSafeInteger(value) || value <= 0`, negated
unfoldable pub is_positive_safe : ℕ → Bool
is_positive_safe value = not (value == 0) && leb value safe_integer_max

unfoldable pub validate_budgets : ProbeBudgets → Result ProbeError (Unit {0})
unfolding is_positive_safe
validate_budgets b = do
  throw_if
      (not (
        is_positive_safe b.startup_ms
        && is_positive_safe b.exec_ms
        && is_positive_safe b.total_ms
        && is_positive_safe b.cleanup_ms
        && is_positive_safe b.api_ms
        && is_positive_safe b.freshness_ms
        && is_positive_safe b.poll_ms))
      invalid_budget
  throw_if
      (not (
        b.startup_ms == probe_budget_ms.startup_ms
        && b.exec_ms == probe_budget_ms.exec_ms
        && b.total_ms == probe_budget_ms.total_ms
        && b.cleanup_ms == probe_budget_ms.cleanup_ms
        && b.api_ms == probe_budget_ms.api_ms
        && b.freshness_ms == probe_budget_ms.freshness_ms
        && b.poll_ms == probe_budget_ms.poll_ms))
      unreviewed_budget
  throw_if (ltb b.total_ms (b.startup_ms + b.exec_ms + b.freshness_ms + b.poll_ms))
      overlapping_budgets

abbrev pub is_empty : String → Bool
is_empty s = str_eq s ""

-- `!value` for an optional text: missing or empty
abbrev pub is_missing : Option String → Bool
is_missing none = true
is_missing (some s) = is_empty s

abbrev pub option_eq : Option String → Option String → Bool
option_eq none none = true
option_eq (some a) (some b) = str_eq a b
option_eq _ _ = false

abbrev pub is_some {ℓ} : {A : Type ℓ} → Option A → Bool
is_some none = false
is_some (some _) = true

abbrev pub or_else : {A : Type 0} → Option A → A → A
or_else none d = d
or_else (some a) d = a

-- a test of an optional number, false where there is none
abbrev pub holds_of : Option ℕ → (ℕ → Bool) → Bool
holds_of none p = false
holds_of (some t) p = p t

-- `Number(Boolean(running)) + Number(Boolean(terminated)) + Number(Boolean(waiting)) === 1`
exactly_one : ContainerState → Bool
exactly_one s =
    if is_some s.running
    then not (is_some s.terminated) && not (is_some s.waiting)
    else if is_some s.terminated
    then not (is_some s.waiting)
    else is_some s.waiting

unfoldable pub container_ok : Option ContainerState → Bool
unfolding exactly_one
container_ok none = true
container_ok (some s) = exactly_one s

-- `o.state?.running?.startedAt ?? o.state?.terminated?.startedAt`
started_of : ContainerState → Option String
started_of s = elim s.running [
  | some at ↦ some at
  | none ↦ elim s.terminated [ none ↦ none | some t ↦ t.started_at ]
]

unfoldable pub container_started : Option ContainerState → Option String
unfolding started_of
container_started none = none
container_started (some s) = started_of s

unfoldable pub container_end : Option ContainerState → Option Terminated
container_end none = none
container_end (some s) = s.terminated

abbrev pub exit_negative : Option Terminated → Bool
exit_negative none = false
exit_negative (some t) = elim t.exit_code [ code _ ↦ false | negative _ ↦ true ]

abbrev exit_is_zero : ExitCode → Bool
exit_is_zero (code n) = n == 0
exit_is_zero (negative _) = false

abbrev pub exit_nonzero : Option Terminated → Bool
exit_nonzero none = false
exit_nonzero (some t) = not (exit_is_zero t.exit_code)
