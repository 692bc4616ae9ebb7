-- ===== src/Probe/Lifecycle.antt =====
-- ops/inspection/cpa-work-probe-lifecycle.ts: `superviseProbe`.
-- The process, the cleanup and the clock answer by a script, `Environment`; what the supervisor
-- does to them is a list of actions. A wait or a cleanup may also throw, and the `finally` blocks
-- run in either case. `parse_date` and `to_iso` are the host's `Date.parse` and `toISOString`.
use memeloop_token_center_mi.Common.{
  ℕ, ◌+◌, min, String, Bool, true, false, Option, none, some, List, [], ◌∷◌, ◌++◌, ltb,
  if◌then◌else◌, Result, ok, err,
}
use memeloop_token_center_mi.Probe.Observation.{ProbeError, probe_budget_ms}
use memeloop_token_center_mi.Probe.Budget.{cleanup_deadline}

-- `receipt?.cleanup?.startedAt`, each step of which may be missing
pub record ProbeExit : Type 0 where
  pub finished_at : ℕ
  pub receipt : Option (Option String)

pub data Wait : Type 0 where
  exited : ProbeExit → Wait
  not_yet : Wait
  failed : Wait

pub data Cleanup : Type 0 where
  reported : Bool → Cleanup
  timed_out : Cleanup
  failed : Cleanup

pub record Environment : Type 0 where
  pub called_at : ℕ
  pub first_wait : Wait
  pub stop_at : ℕ
  pub second_wait : Wait
  pub entry : ℕ
  pub checked_at : ℕ
  pub cleanup : Cleanup

pub data Action : Type 0 where
  wait : (deadline : ℕ) → Action
  sigterm sigkill : Action
  clean : (deadline : ℕ) → Action

pub data LifecycleError : Type 0 where
  invalid_operator_start wait_failed cleanup_failed : LifecycleError
  bad_boundary : ProbeError → LifecycleError

pub record Supervision : Type 0 where
  pub exit : Option ProbeExit
  pub forced_stop : Bool
  pub cleanup_complete : Bool
  pub cleanup_limit : ℕ
  pub outer_limit : ℕ

abbrev pub execution_deadline : ℕ → ℕ
execution_deadline started_at = started_at + probe_budget_ms.total_ms

abbrev pub outer_deadline : ℕ → ℕ
outer_deadline started_at = execution_deadline started_at + probe_budget_ms.cleanup_ms + 5_000

-- What the supervisor holds when it reaches the cleanup: `exit`, `forcedStop`, `stopStartedAt`, and
-- the error that is under way.
pub record Stopped : Type 0 where
  pub exit : Option ProbeExit
  pub forced_stop : Bool
  pub stop_started : Option String
  pub thrown : Option LifecycleError

abbrev pub exit_of : Wait → Option ProbeExit
exit_of (exited e) = some e
exit_of _ = none

abbrev pub thrown_by : Wait → Option LifecycleError
thrown_by Wait.failed = some wait_failed
thrown_by _ = none

-- `receipt?.cleanup?.startedAt ?? null`
abbrev pub receipt_start : Option (Option String) → Option String
receipt_start none = none
receipt_start (some at) = at

-- `exit?.receipt?.cleanup?.startedAt ?? (!exit ? stopStartedAt : null)`
abbrev pub cleanup_start : Option ProbeExit → Option String → Option String
cleanup_start none stop_started = stop_started
cleanup_start (some e) stop_started = receipt_start e.receipt

abbrev pub finished_of : Option ProbeExit → Option ℕ
finished_of none = none
finished_of (some e) = some e.finished_at

module _ (parse_date : String → Option ℕ) (to_iso : ℕ → String) where
  -- the second wait: a process that outlives it is killed; if it throws, nothing is killed
  unfoldable pub stop_process : Environment → ℕ → Option LifecycleError → List Action × Stopped
  stop_process env started_at thrown = elim env.second_wait [
    | exited e ↦ (
      sigterm
          ∷ wait
              (min (outer_deadline started_at) (env.stop_at + probe_budget_ms.cleanup_ms + 5_000))
          ∷ [],
      record {
        exit = some e;
        forced_stop = false;
        stop_started = some (to_iso env.stop_at);
        thrown = thrown;
      },
    )
    | not_yet ↦ (
      sigterm
          ∷ wait
              (min (outer_deadline started_at) (env.stop_at + probe_budget_ms.cleanup_ms + 5_000))
          ∷ sigkill
          ∷ [],
      record {
        exit = none;
        forced_stop = true;
        stop_started = some (to_iso env.stop_at);
        thrown = thrown;
      },
    )
    | failed ↦ (
      sigterm
          ∷ wait
              (min (outer_deadline started_at) (env.stop_at + probe_budget_ms.cleanup_ms + 5_000))
          ∷ [],
      record {
        exit = none;
        forced_stop = false;
        stop_started = some (to_iso env.stop_at);
        thrown = some wait_failed;
      },
    )
  ]

  -- the first wait, and the stop where it brought no exit
  unfoldable pub run_process : Environment → ℕ → List Action × Stopped
  unfolding stop_process
  run_process env started_at = elim env.first_wait [
    | exited e ↦
        ([], record { exit = some e; forced_stop = false; stop_started = none; thrown = none })
    | not_yet ↦ stop_process env started_at none
    | failed ↦ stop_process env started_at (some wait_failed)
  ]

  abbrev supervision : ℕ → Stopped → ℕ → Bool → Supervision
  supervision started_at s limit complete = record {
    exit = s.exit;
    forced_stop = s.forced_stop;
    cleanup_complete = complete;
    cleanup_limit = limit;
    outer_limit = outer_deadline started_at;
  }

  -- what is returned, unless an error is under way
  abbrev finish : ℕ → Stopped → ℕ → Bool → Result LifecycleError Supervision
  finish started_at s limit complete = elim s.thrown [
    | some e ↦ err e
    | none ↦ ok (supervision started_at s limit complete)
  ]

  -- the inner `finally`: the cleanup, run only where its deadline is ahead
  unfoldable pub clean_up :
      Environment
      → ℕ
      → Stopped
      → Result ProbeError ℕ
      → List Action × Result LifecycleError Supervision
  clean_up env started_at s (err e) = ([], err (bad_boundary e))
  clean_up env started_at s (ok limit) =
      if ltb env.checked_at limit
      then (elim env.cleanup [
        | reported complete ↦ (clean limit ∷ [], finish started_at s limit complete)
        | timed_out ↦ (clean limit ∷ [], finish started_at s limit false)
        | failed ↦ (clean limit ∷ [], err cleanup_failed)
      ])
      else ([], finish started_at s limit false)

  unfoldable pub boundary : Environment → ℕ → Stopped → Result ProbeError ℕ
  boundary env started_at s =
      cleanup_deadline parse_date env.entry (cleanup_start s.exit s.stop_started)
        (finished_of s.exit) (some (outer_deadline started_at))

  unfoldable pub supervise_probe : Environment → ℕ → List Action × Result LifecycleError Supervision
  supervise_probe env started_at =
      if ltb env.called_at started_at
      then ([], err invalid_operator_start)
      else (let (before, s) = run_process env started_at in
          let (after, outcome) = clean_up env started_at s (boundary env started_at s) in
          (wait (execution_deadline started_at) ∷ before ++ after, outcome))
