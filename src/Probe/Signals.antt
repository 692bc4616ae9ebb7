-- ===== src/Probe/Signals.antt =====
-- Which signals the supervisor sends, and what a result that it returns says of them.
use memeloop_token_center_mi.Common.{
  ltb→lt, le→leb, leb, is_ok, ◌≢◌, ℕ, ◌+◌, ◌≤◌, ◌<◌, String, ◌≡◌, refl, Bool, true, false, Option,
  none, some, List, ◌∷◌, ◌++◌, ltb, Result, ok, err, arith, ◌⊎◌, inl, inr, any, not, Bool-cases,
}
use memeloop_token_center_mi.Probe.Lifecycle.{
  receipt_start, ProbeExit, Wait, exited, not_yet, Cleanup, reported, Environment, Action, wait,
  LifecycleError, Supervision, Stopped, outer_deadline, run_process, clean_up, boundary,
  supervise_probe, execution_deadline, cleanup_start, finished_of,
}
use memeloop_token_center_mi.Probe.Deadlines.{is_sigterm, is_sigkill}
use memeloop_token_center_mi.Probe.Observation.{ProbeError}
use memeloop_token_center_mi.Probe.Budget.{timestamp, cleanup_deadline, cleanup_anchor}

abbrev pub is_exited : Wait → Bool
is_exited (exited _) = true
is_exited _ = false

module _ (parse_date : String → Option ℕ) (to_iso : ℕ → String) (env : Environment)
    (started_at : ℕ) where
  -- What a result says of the run that returned it.
  pub record IsReport (actions : List Action) (r : Supervision) : Type 0 where
    pub killed : any is_sigkill actions ≡ r.forced_stop
    pub asked : any is_sigterm actions ≡ not (is_exited env.first_wait)
    pub outlived : r.forced_stop ≡ true → r.exit ≡ none
    pub cleaned :
        r.cleanup_complete ≡ true
        → (env.cleanup ≡ reported true) × (env.checked_at < r.cleanup_limit)
    pub limit : r.cleanup_limit ≤ env.entry + 30_000

  abbrev stopped : Stopped
  stopped = (run_process parse_date to_iso env started_at).1

  abbrev ending : List Action × Result LifecycleError Supervision
  ending =
      clean_up parse_date to_iso env started_at stopped
        (boundary parse_date to_iso env started_at stopped)

  abbrev all_actions : List Action
  all_actions =
      wait (execution_deadline started_at) ∷ (run_process parse_date to_iso env started_at).0
      ++ ending.0

Wait-cases : (w : Wait) → ((e : ProbeExit) × (w ≡ exited e)) ⊎ (w ≡ not_yet) ⊎ (w ≡ Wait.failed)
Wait-cases (exited e) = inl (e, refl)
Wait-cases not_yet = inr (inl refl)
Wait-cases Wait.failed = inr (inr refl)

-- A run in which nothing throws and no boundary lies after the cleanup's entry.
pub record IsCalm (parse_date : String → Option ℕ) (to_iso : ℕ → String) (env : Environment)
    (started_at : ℕ) : Type 0 where
  pub called : started_at ≤ env.called_at
  pub first : env.first_wait ≢ Wait.failed
  pub second : env.second_wait ≢ Wait.failed
  pub cleanup : env.cleanup ≢ Cleanup.failed
  pub iso : parse_date (to_iso env.stop_at) ≡ some env.stop_at
  pub stop : env.stop_at ≤ env.entry
  pub exits :
      (e : ProbeExit)
      → (env.first_wait ≡ exited e) ⊎ (env.second_wait ≡ exited e)
      → e.finished_at ≤ env.entry
  pub receipts :
      (e : ProbeExit) (at : String)
      → (env.first_wait ≡ exited e) ⊎ (env.second_wait ≡ exited e)
      → e.receipt ≡ some (some at)
      → (t : ℕ) × (parse_date at ≡ some t) × (t ≤ env.entry)

module _ (parse_date : String → Option ℕ) (to_iso : ℕ → String) (env : Environment)
    (started_at : ℕ) where
  abbrev anchor_ok : ℕ → Result ProbeError ℕ → Bool
  anchor_ok entry (ok anchor) = leb anchor entry
  anchor_ok entry (err e) = false

  deadline-ok :
      (a : Option String) (f : Option ℕ) (outer : ℕ)
      → anchor_ok env.entry (cleanup_anchor parse_date env.entry a f) ≡ true
      → is_ok (cleanup_deadline parse_date env.entry a f (some outer)) ≡ true
  unfolding cleanup_deadline
  deadline-ok a f outer h = ground arith

  receipt_anchor :
      (receipt : Option (Option String)) (finished : ℕ)
      → finished ≤ env.entry
      → ((at : String)
          → receipt ≡ some (some at)
          → (t : ℕ) × (parse_date at ≡ some t) × (t ≤ env.entry))
      → anchor_ok env.entry
          (cleanup_anchor parse_date env.entry (receipt_start receipt) (some finished))
        ≡ true
  unfolding cleanup_anchor timestamp
  receipt_anchor none f h k = le→leb f env.entry h
  receipt_anchor (some none) f h k = le→leb f env.entry h
  receipt_anchor (some (some at)) f h k =
      let (t, p, le) = k at refl in rw (p, anchor_ok) (le→leb t env.entry le)

  module _ (calm : IsCalm parse_date to_iso env started_at) where
    exit_anchor :
        (e : ProbeExit)
        → (env.first_wait ≡ exited e) ⊎ (env.second_wait ≡ exited e)
        → anchor_ok env.entry
            (cleanup_anchor parse_date env.entry (receipt_start e.receipt) (some e.finished_at))
          ≡ true
    exit_anchor e h =
        receipt_anchor e.receipt e.finished_at (calm.exits e h) (λ at r. calm.receipts e at h r)

    iso_anchor :
        anchor_ok env.entry (cleanup_anchor parse_date env.entry (some (to_iso env.stop_at)) none)
        ≡ true
    unfolding cleanup_anchor timestamp
    iso_anchor = rw (calm.iso, anchor_ok) (le→leb env.stop_at env.entry calm.stop)

    stopped_anchor :
        (let s = (run_process parse_date to_iso env started_at).1 in
          anchor_ok env.entry (
            cleanup_anchor parse_date env.entry
              (cleanup_start s.exit s.stop_started)
              (finished_of s.exit)))
        ≡ true
    unfolding run_process
    stopped_anchor = elim (Wait-cases env.first_wait) [
      | inl (e, first) ↦ rw first (exit_anchor e (inl first))
      | inr (inl first) ↦ elim (Wait-cases env.second_wait) [
        | inl (e, second) ↦ rw (first, second) (exit_anchor e (inr second))
        | inr (inl second) ↦ rw (first, second) iso_anchor
        | inr (inr second) ↦ absurd (calm.second second)
      ]
      | inr (inr first) ↦ absurd (calm.first first)
    ]

    stopped_clear : (run_process parse_date to_iso env started_at).1.thrown ≡ none
    unfolding run_process
    stopped_clear = ground (arith, calm.first, calm.second)

    clean_up-ok :
        (s : Stopped) (b : Result ProbeError ℕ)
        → s.thrown ≡ none
        → is_ok b ≡ true
        → is_ok (clean_up parse_date to_iso env started_at s b).1 ≡ true
    unfolding clean_up
    clean_up-ok s b h k = ground (arith, calm.cleanup)

    boundary-ok :
        is_ok (
          boundary parse_date to_iso env started_at
            (run_process parse_date to_iso env started_at).1)
        ≡ true
    unfolding boundary
    boundary-ok =
        let s = (run_process parse_date to_iso env started_at).1 in
        deadline-ok (cleanup_start s.exit s.stop_started) (finished_of s.exit)
          (outer_deadline started_at) stopped_anchor

    -- The supervisor returns a result, and throws nothing, in every calm run: the waits and the
    -- cleanup do not throw, and no boundary that anchors the cleanup lies after its entry.
    pub supervise_probe-returns : is_ok (supervise_probe parse_date to_iso env started_at).1 ≡ true
    unfolding supervise_probe
    supervise_probe-returns = elim (Bool-cases (ltb env.called_at started_at)) [
      | inl early ↦ absurd (omega (arith, ltb→lt env.called_at started_at early, calm.called))
      | inr late ↦
          rw late (
            clean_up-ok (run_process parse_date to_iso env started_at).1 _ stopped_clear
              boundary-ok)
    ]
