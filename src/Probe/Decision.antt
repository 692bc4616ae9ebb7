-- ===== src/Probe/Decision.antt =====
-- What each status says of the attempt, and how a decision changes with time.
use memeloop_token_center_mi.Common.{
  ℕ, ◌+◌, ◌≤◌, ◌<◌, String, ◌≡◌, true, false, refl, Option, none, some, arith, ok, ap, ◌∙◌, sym,
}
use memeloop_token_center_mi.Probe.Observation.{
  ProbeBudgets, ProbeObservation, ProbeIdentity, probe_budget_ms, container_end, is_some,
  exit_nonzero,
}
use memeloop_token_center_mi.Probe.Budget.{
  ProbeDecision, Times, Status, decision, probe_budget, phase_is,
}
use memeloop_token_center_mi.Probe.Status.{
  Observed, InOrder, probe_budget-Observed, Observed-unique,
}

-- An attempt that ran to its end, in time and without a failure.
pub record IsComplete (o : ProbeObservation) (t : Times) (now : ℕ) : Type 0 where
  pub exec_start : ℕ
  pub started : t.exec_start ≡ some exec_start
  pub started_in_time : exec_start < t.start + 300_000
  pub finished : ℕ
  pub ended : t.finished ≡ some finished
  pub ended_in_time : finished < exec_start + 165_000
  pub before_total : now < t.start + 480_000
  pub exit_zero : exit_nonzero (container_end o.state) ≡ false
  pub reported : o.complete ≡ true
  pub phase : phase_is o "Succeeded" ≡ true
  pub init_ok : o.init_failed ≡ false
  pub job_ok : o.job_failed ≡ false

module _ (o : ProbeObservation) (t : Times) (identity : ProbeIdentity) (now : ℕ) where
  decision-IsComplete :
      (s f : ℕ)
      → t.exec_start ≡ some s
      → t.finished ≡ some f
      → (decision o t identity now probe_budget_ms).status ≡ Status.complete
      → IsComplete o t now
  unfolding decision
  decision-IsComplete s f es ef h = record {
    exec_start = s;
    started = es;
    started_in_time = ground arith;
    finished = f;
    ended = ef;
    ended_in_time = ground arith;
    before_total = ground arith;
    exit_zero = ground arith;
    reported = ground arith;
    phase = ground arith;
    init_ok = ground arith;
    job_ok = ground arith;
  }

  complete-some :
      InOrder o t
      → is_some t.finished ≡ is_some (container_end o.state)
      → (decision o t identity now probe_budget_ms).status ≡ Status.complete
      → (is_some t.exec_start ≡ true) × (is_some t.finished ≡ true)
  unfolding decision
  complete-some v e h = (ground arith, ground arith)

  decision-open :
      is_some t.finished ≡ is_some (container_end o.state)
      → (decision o t identity now probe_budget_ms).stop_required ≡ false
      → (now < t.start + 480_000)
        × (t.finished ≡ none)
        × (container_end o.state ≡ none)
        × (phase_is o "Failed" ≡ false)
        × (o.init_failed ≡ false)
        × (o.job_failed ≡ false)
        × (t.exec_start ≡ none → now < t.start + 300_000)
        × ((s : ℕ) → t.exec_start ≡ some s → now < s + 165_000)
  unfolding decision
  decision-open e h = (
    ground arith,
    ground arith,
    ground arith,
    ground arith,
    ground arith,
    ground arith,
    λ n. ground arith,
    λ s n. ground arith,
  )

  decision-stop_mono :
      (later : ℕ)
      → now ≤ later
      → (decision o t identity now probe_budget_ms).stop_required ≡ true
      → (decision o t identity later probe_budget_ms).stop_required ≡ true
  unfolding decision
  decision-stop_mono later le h = ground arith

some_of : {A : Type 0} (x : Option A) → is_some x ≡ true → (a : A) × (x ≡ some a)
some_of none h = cc
some_of (some a) h = (a, refl)

module _ (parse_date : String → Option ℕ) (o : ProbeObservation) (identity : ProbeIdentity)
    (now : ℕ) (b : ProbeBudgets) (d : ProbeDecision) where
  -- An accepted observation whose status is COMPLETE, the only one that reports bytes, is fresh and
  -- consistent, and tells of an execution that began within the startup budget, ended within the
  -- execution budget with exit code 0, and was reported complete in a pod that succeeded, with no
  -- failure of the init container or the job and before the total deadline.
  pub complete-IsComplete :
      probe_budget parse_date o identity now b ≡ ok d
      → d.status ≡ Status.complete
      → (t : Times) × Observed parse_date o identity now t × IsComplete o t now
  complete-IsComplete h c =
      let (t, seen, e) = probe_budget-Observed parse_date o identity now b d h in
      let c' = sym (ap (λ (x : ProbeDecision). x.status) e) ∙ c in
      let (has_start, has_end) = complete-some o t identity now seen.in_order seen.ended c' in
      let (s, es) = some_of t.exec_start has_start in
      let (f, ef) = some_of t.finished has_end in
      (t, seen, decision-IsComplete o t identity now s f es ef c')

  -- An accepted observation that does not require a stop is fresh and consistent, and tells of an
  -- attempt whose container has not ended, whose pod, init container and job have not failed, before
  -- the total deadline, and before the startup or the execution deadline, whichever applies.
  pub continue_bounds :
      probe_budget parse_date o identity now b ≡ ok d
      → d.stop_required ≡ false
      → (t : Times) × Observed parse_date o identity now t
        × (now < t.start + 480_000)
        × (t.finished ≡ none)
        × (container_end o.state ≡ none)
        × (phase_is o "Failed" ≡ false)
        × (o.init_failed ≡ false)
        × (o.job_failed ≡ false)
        × (t.exec_start ≡ none → now < t.start + 300_000)
        × ((s : ℕ) → t.exec_start ≡ some s → now < s + 165_000)
  continue_bounds h c =
      let (t, seen, e) = probe_budget-Observed parse_date o identity now b d h in
      let c' = sym (ap (λ (x : ProbeDecision). x.stop_required) e) ∙ c in
      let (total, ended, closed, phase, init, job, startup, exec) =
        decision-open o t identity now seen.ended c' in
      (t, seen, total, ended, closed, phase, init, job, startup, exec)

-- Once an observation requires a stop, it requires one at every later time at which it is still
-- accepted.
pub stop_mono :
    (parse_date : String → Option ℕ) (o : ProbeObservation) (identity : ProbeIdentity)
    (now later : ℕ) (b : ProbeBudgets) (d d' : ProbeDecision)
    → now ≤ later
    → probe_budget parse_date o identity now b ≡ ok d
    → probe_budget parse_date o identity later b ≡ ok d'
    → d.stop_required ≡ true
    → d'.stop_required ≡ true
stop_mono parse_date o identity now later b d d' le h h' stop =
    let (t, seen, e) = probe_budget-Observed parse_date o identity now b d h in
    let (t', seen', e') = probe_budget-Observed parse_date o identity later b d' h' in
    let same = Observed-unique parse_date o identity now later t t' seen seen' in
    let before = sym (ap (λ (x : ProbeDecision). x.stop_required) e) ∙ stop in
    let after = decision-stop_mono o t identity now later le before in
    ap (λ (x : ProbeDecision). x.stop_required) e'
    ∙ ap (λ (x : Times). (decision o x identity later probe_budget_ms).stop_required) (sym same)
    ∙ after
