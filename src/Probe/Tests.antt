-- ===== src/Probe/Tests.antt =====
-- Runs of the probe's budget and of its supervision, and the theorems at concrete inputs.
use memeloop_token_center_mi.Common.{
  min, ℕ, ◌+◌, ◌<◌, ◌≡◌, refl, String, true, false, Option, none, some, [], ◌∷◌, arith, str_eq,
  if◌then◌else◌, ok, All, is_ok,
}
use memeloop_token_center_mi.Probe.Deadlines.{Within, actions_Within}
use memeloop_token_center_mi.Probe.ForcedStop.{forced_skips_cleanup}
use memeloop_token_center_mi.Probe.Lifecycle.{
  exited, clean, run_process, clean_up, boundary, not_yet, reported, Environment, wait, sigterm,
  sigkill, supervise_probe, Supervision,
}
use memeloop_token_center_mi.Probe.Observation.{
  container_end, ProbeObservation, ProbeIdentity, code, probe_budget_ms,
}
use memeloop_token_center_mi.Probe.Budget.{
  Times, Status, target_claim, probe_budget, phase_is, decision, cleanup_deadline,
}
use memeloop_token_center_mi.Probe.Status.{Observed}
use memeloop_token_center_mi.Probe.Decision.{
  IsComplete, complete-IsComplete, continue_bounds, stop_mono,
}
use memeloop_token_center_mi.Probe.Signals.{IsCalm, supervise_probe-returns}

-- A stand-in for the host's clock texts.
abbrev dates : String → Option ℕ
dates s =
    if str_eq s "start"
    then some 1_000
    else if str_eq s "collect"
    then some 70_000
    else if str_eq s "seen"
    then some 71_000
    else if str_eq s "exec"
    then some 2_000
    else if str_eq s "end"
    then some 60_000
    else none

abbrev who : ProbeIdentity
who = record { job_uid = "job"; pod_uid = some "pod"; pvc_uid = "pvc" }

abbrev finished_run : ProbeObservation
finished_run = record {
  job_uid = "job";
  job_resource_version = "1";
  pod_uid = some "pod";
  pod_resource_version = some "2";
  owner_uid = some "job";
  pvc_uid = "pvc";
  pvc_resource_version = "3";
  claim_name = target_claim;
  attempt_started_at = "start";
  collection_started_at = "collect";
  observed_at = "seen";
  init_failed = false;
  job_failed = false;
  pod_phase = some "Succeeded";
  state = some (record {
    running = none;
    terminated =
        some (record { started_at = some "exec"; finished_at = "end"; exit_code = code 0 });
    waiting = none;
  });
  write_started = true;
  complete = true;
}

abbrev running_run : ProbeObservation
running_run = record finished_run {
  pod_phase = some "Running";
  state = some (record { running = some "exec"; terminated = none; waiting = none });
  complete = false;
}

abbrev times_seen : Times
times_seen = record {
  start = 1_000;
  observed = 71_000;
  exec_start = some 2_000;
  finished = some 60_000;
}

abbrev times_running : Times
times_running = record {
  start = 1_000;
  observed = 71_000;
  exec_start = some 2_000;
  finished = none;
}

finished_ok :
    probe_budget dates finished_run who 72_000 probe_budget_ms
    ≡ ok (decision finished_run times_seen who 72_000 probe_budget_ms)
unfolding probe_budget
finished_ok = refl

finished_complete :
    (decision finished_run times_seen who 72_000 probe_budget_ms).status ≡ Status.complete
unfolding decision
finished_complete = refl

running_ok :
    probe_budget dates running_run who 72_000 probe_budget_ms
    ≡ ok (decision running_run times_running who 72_000 probe_budget_ms)
unfolding probe_budget
running_ok = refl

complete-IsComplete_example :
    (t : Times) × Observed dates finished_run who 72_000 t × IsComplete finished_run t 72_000
complete-IsComplete_example =
    complete-IsComplete dates finished_run who 72_000 probe_budget_ms
      (decision finished_run times_seen who 72_000 probe_budget_ms) finished_ok finished_complete

running_continues :
    (decision running_run times_running who 72_000 probe_budget_ms).stop_required ≡ false
unfolding decision
running_continues = refl

continue_bounds_example :
    (t : Times) × Observed dates running_run who 72_000 t
    × (72_000 < t.start + 480_000)
    × (t.finished ≡ none)
    × (container_end running_run.state ≡ none)
    × (phase_is running_run "Failed" ≡ false)
    × (running_run.init_failed ≡ false)
    × (running_run.job_failed ≡ false)
    × (t.exec_start ≡ none → 72_000 < t.start + 300_000)
    × ((s : ℕ) → t.exec_start ≡ some s → 72_000 < s + 165_000)
continue_bounds_example =
    continue_bounds dates running_run who 72_000 probe_budget_ms
      (decision running_run times_running who 72_000 probe_budget_ms) running_ok running_continues

finished_later :
    probe_budget dates finished_run who 80_000 probe_budget_ms
    ≡ ok (decision finished_run times_seen who 80_000 probe_budget_ms)
unfolding probe_budget
finished_later = refl

finished_stops : (decision finished_run times_seen who 72_000 probe_budget_ms).stop_required ≡ true
unfolding decision
finished_stops = refl

stop_mono_example :
    (decision finished_run times_seen who 80_000 probe_budget_ms).stop_required ≡ true
stop_mono_example =
    stop_mono dates finished_run who 72_000 80_000 probe_budget_ms
      (decision finished_run times_seen who 72_000 probe_budget_ms)
      (decision finished_run times_seen who 80_000 probe_budget_ms) (omega arith) finished_ok
      finished_later finished_stops

cleanup_runs : cleanup_deadline dates 65_000 (some "end") none (some 80_000) ≡ ok 80_000
unfolding cleanup_deadline
cleanup_runs = refl

-- a process that exits in time, with a receipt that tells when its own cleanup began
abbrev clean_exit : Environment
clean_exit = record {
  called_at = 1_000;
  first_wait = exited (record { finished_at = 64_000; receipt = some (some "end") });
  stop_at = 481_000;
  second_wait = not_yet;
  entry = 65_000;
  checked_at = 65_000;
  cleanup = reported true;
}

clean_run :
    (supervise_probe dates (λ t. "at") clean_exit 1_000).0 ≡ wait 481_000 ∷ clean 90_000 ∷ []
unfolding supervise_probe run_process clean_up boundary cleanup_deadline
clean_run = refl

-- A process that answers neither the deadline nor SIGTERM.
abbrev stuck : Environment
stuck = record {
  called_at = 1_000;
  first_wait = not_yet;
  stop_at = 481_000;
  second_wait = not_yet;
  entry = 516_000;
  checked_at = 516_000;
  cleanup = reported true;
}

abbrev iso : ℕ → String
iso t = "at"

abbrev reads_iso : String → Option ℕ
reads_iso s = some 481_000

abbrev stuck_result : Supervision
stuck_result = record {
  exit = none;
  forced_stop = true;
  cleanup_complete = false;
  cleanup_limit = 511_000;
  outer_limit = 516_000;
}

actions_Within_example : All (Within 516_000) (supervise_probe reads_iso iso stuck 1_000).0
actions_Within_example = actions_Within reads_iso iso stuck 1_000

stuck-IsCalm : IsCalm reads_iso iso stuck 1_000
stuck-IsCalm = record {
  called = omega arith;
  first = λ e. cc;
  second = λ e. cc;
  cleanup = λ e. cc;
  iso = refl;
  stop = omega arith;
  exits = λ e h. ground arith;
  receipts = λ e at h r. (481_000, refl, omega arith);
}

supervise_probe-returns_example : is_ok (supervise_probe reads_iso iso stuck 1_000).1 ≡ true
supervise_probe-returns_example = supervise_probe-returns reads_iso iso stuck 1_000 stuck-IsCalm

forced_skips_cleanup_example :
    (supervise_probe reads_iso iso stuck 1_000).0
    ≡ wait (1_000 + 480_000)
      ∷ sigterm
      ∷ wait (min (1_000 + 515_000) (481_000 + 35_000))
      ∷ sigkill
      ∷ []
forced_skips_cleanup_example =
    forced_skips_cleanup reads_iso iso stuck 1_000 refl refl refl (omega arith) (omega arith)
      (omega arith)
